-- ===== src/Llist/Tests.antt =====
-- The theorems on linked lists at a list of two nodes.
use bklib.Base.{◌≡◌, refl, [], ◌∷◌, arith}
use bklib.Llist.{Store, add_behind, add_after, remove, append, init, insert, to_tail}
use bklib.Llist.Linked.{
  Linked, init_lem, append_lem, insert_lem, add_after_lem, remove_lem, to_tail_lem,
}

-- The list's own node is at 1.
abbrev empty : Store
empty = record { next = λ q. 7; prev = λ q. 7; tail = 7 }

abbrev two : Store
two = insert 1 (append 1 (init 1 empty) 3) 2

two_links : two.next 1 ≡ 2
unfolding init append insert add_after add_behind
two_links = refl

two-Linked : Linked 1 two (2 ∷ 3 ∷ [])
two-Linked =
    insert_lem 1 (append 1 (init 1 empty) 3) (3 ∷ []) 2
      (append_lem 1 (init 1 empty) [] 3 (init_lem 1 empty (omega arith))
        record { some = omega arith; no_head = omega arith; unused = _ })
      record { some = omega arith; no_head = omega arith; unused = (omega arith, _) }

add_after_lem_example : Linked 1 (add_after 1 two 2 4) (2 ∷ 4 ∷ 3 ∷ [])
add_after_lem_example =
    add_after_lem 1 two (2 ∷ []) (3 ∷ []) 4 two-Linked
      record { some = omega arith; no_head = omega arith; unused = (omega arith, (omega arith, _)) }

remove_lem_example : Linked 1 (remove 1 two 2) (3 ∷ [])
remove_lem_example = remove_lem 1 two [] (3 ∷ []) 2 two-Linked

to_tail_lem_example : Linked 1 (to_tail 1 two 2) (3 ∷ 2 ∷ [])
to_tail_lem_example = to_tail_lem 1 two [] (3 ∷ []) 2 two-Linked
