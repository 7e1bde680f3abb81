-- ===== src/Sendlist/Tests.antt =====
-- The queue's theorems at a concrete socket, which takes four bytes more and then would block.
use bklib.Base.{
  ℕ, zero, suc, ◌+◌, ◌-◌, ◌≡◌, refl, ap, true, none, some, List, [], ◌∷◌, ◌++◌, ok, Returns, arith,
  length, take, drop, length-take, Run, ◌>>=◌,
}
use bklib.Base.Int.{ℤ, pos, negsuc, is_zero}
use bklib.Array.Cells.{Memory}
use bklib.Array.Contents.{IsValid}
use bklib.Sendlist.{
  Sendbuf, Sendlist, System, send, flush, close, report, init, send_buf, select_write,
}
use bklib.Sendlist.Queue.{queue, callbacks, callers}
use bklib.Sendlist.Stream.{Accepts, AllBacked, IsSocket}
use bklib.Sendlist.Flush.{Flushed, flush_lem}
use bklib.Sendlist.Send.{Sent, send_lem, close_lem}

-- The bytes sent, and how many more the socket takes. It would block on nothing that it takes.
abbrev World : Type 0
World = List ℕ × ℕ

-- `f` has the bytes f, f + 1, f + 2.
abbrev file : ℤ → List ℕ
file (pos f) = f ∷ (f + 1) ∷ (f + 2) ∷ []
file (negsuc f) = []

abbrev wire : World → List ℕ
wire w = w.0

abbrev taking : List ℕ → World → ℤ × World
taking xs (sent, room) = (pos (length (take room xs)), (sent ++ take room xs, room - length xs))

abbrev system : System World
system = record {
  write = λ fd xs w. taking xs w;
  sendfile = λ fd f off len w. taking (take len (drop off (file f))) w;
  shutdown = λ fd w. (pos 0, w);
  would_block = λ w. true;
  select = λ fd w. (pos 0, w);
  unselect = λ fd w. (pos 0, w);
}

prefix : (n : ℕ) (xs : List ℕ) → take n xs ≡ take (length (take n xs)) xs
prefix zero xs = refl
prefix (suc n) [] = refl
prefix (suc n) (x ∷ xs) = ap (λ l. x ∷ l) (prefix n xs)

taking-Accepts : (xs : List ℕ) (w : World) → Accepts system wire file xs w (taking xs w)
taking-Accepts xs (sent, room) =
    (omega (arith, length-take room xs), ap (λ l. sent ++ l) (prefix room xs))

system-IsSocket : IsSocket system wire file 3
system-IsSocket = record {
  writes = taking-Accepts;
  sends = λ f off len w. taking-Accepts (take len (drop off (file f))) w;
  shuts = λ w. refl;
  selects = λ w. refl;
  unselects = λ w. refl;
}

abbrev two_bytes : Sendbuf
two_bytes = record { buf = some (1 ∷ 2 ∷ []); fd = negsuc 0; len = 2; off = 0; free_func = some 7 }

abbrev plenty : Memory Sendbuf
plenty = record { grant = λ _. true; zeroed = two_bytes; junk = two_bytes }

abbrev of_file : Sendbuf
of_file = record { buf = none; fd = pos 10; len = 3; off = 0; free_func = some 8 }

abbrev sendlist : Sendlist
sendlist = record {
  send_fd = 3;
  sendbufs = record {
    eltsz = 56;
    blocksz = 10;
    cells = some (two_bytes ∷ of_file ∷ []);
    count = 2;
    max = 2;
    free_func = none;
  };
  flushed_func = some 9;
  freed = [];
  flushed = [];
}

sendlist-IsValid : IsValid sendlist.sendbufs
sendlist-IsValid = omega arith

sendlist-AllBacked : AllBacked (queue sendlist)
sendlist-AllBacked = (omega arith, (tt, tt))

flush_lem_example :
    Returns
      (flush system sendlist ([], 4))
      λ r. Flushed system wire file sendlist ([], 4) ([] ++ report sendlist r.0) r
flush_lem_example =
    flush_lem system wire file 3 system-IsSocket sendlist ([], 4) sendlist-IsValid
      sendlist-AllBacked refl

send_lem_example :
    Returns
      (send system plenty two_bytes sendlist ([], 4))
      (Sent system wire file 3 system-IsSocket sendlist ([], 4) two_bytes)
send_lem_example =
    send_lem system wire file 3 system-IsSocket plenty two_bytes sendlist ([], 4) sendlist-IsValid
      sendlist-AllBacked refl (omega arith) refl

close_lem_example : Returns (close system sendlist ([], 4)) λ r.
    (callers r.1.freed ≡ 7 ∷ 8 ∷ []) × (queue r.1 ≡ []) × (r.2 ≡ ([], 4)) × (is_zero r.0 ≡ true)
unfolding callbacks callers
close_lem_example = close_lem system sendlist ([], 4) sendlist-IsValid

-- Two sendbufs on a socket that takes four of their five bytes, and then more.
abbrev two_writes : Run (ℤ × ℤ × List ℕ × List ℕ)
unfolding send_buf init select_write
two_writes = do
  (e, s, w) ← send_buf system plenty (1 ∷ 2 ∷ 3 ∷ []) 3 none (init 3 none) ([], 4)
  (e', s', w') ← send_buf system plenty (4 ∷ 5 ∷ []) 2 none s w
  (_, w'') ← select_write system 3 s' (w'.0, 9)
  ok (e, e', w'.0, w''.0)

two_writes_lem : two_writes ≡ ok (pos 0, pos 1, 1 ∷ 2 ∷ 3 ∷ 4 ∷ [], 1 ∷ 2 ∷ 3 ∷ 4 ∷ 5 ∷ [])
unfolding two_writes
two_writes_lem = refl
