-- ===== src/Llist.antt =====
-- llist.h: the linked list whose links stand in the nodes, in a store of links by address.
mod Tests
pub mod Chain
pub mod Splice
pub mod Linked
use bklib.Base.{ℕ, ◌==◌, ◌||◌, if◌then◌else◌}

-- What the lists' nodes hold, by their addresses, and `tail`. The address 0 is the null pointer.
pub record Store : Type 0 where
  pub next : ℕ → ℕ
  pub prev : ℕ → ℕ
  pub tail : ℕ

-- A field of the node at `p`, written.
abbrev pub put : (ℕ → ℕ) → ℕ → ℕ → ℕ → ℕ
put f p v q = if q == p then v else f q

-- The same through a pointer that may be null.
abbrev pub put_if : (ℕ → ℕ) → ℕ → ℕ → ℕ → ℕ
put_if f p v = if p == 0 then f else put f p v

-- `llist_init`; `head` is the address of the list's own node.
unfoldable pub init : ℕ → Store → Store
init head s = record { next = put s.next head 0; prev = put s.prev head 0; tail = 0 }

abbrev pub llist_head : ℕ → Store → ℕ
llist_head head s = s.next head

abbrev pub llist_tail : Store → ℕ
llist_tail s = s.tail

-- `llist_add_after` behind a node that is not null.
unfoldable pub add_behind : ℕ → Store → ℕ → ℕ → Store
add_behind head s prev node =
    let next = put s.next node (s.next prev) in
    let back = put_if (put s.prev node prev) (next prev) node in
    record {
      next = put next prev node;
      prev = if back node == head then put back node 0 else back;
      tail = if s.tail == 0 || s.tail == prev then node else s.tail;
    }

-- `llist_add_after`; the pointer to the new node is not null.
unfoldable pub add_after : ℕ → Store → ℕ → ℕ → Store
unfolding add_behind
add_after head s prev node = add_behind head s (if prev == 0 then head else prev) node

unfoldable pub insert : ℕ → Store → ℕ → Store
unfolding add_after
insert head s node = add_after head s head node

unfoldable pub append : ℕ → Store → ℕ → Store
unfolding add_after
append head s node = add_after head s s.tail node

-- `llist_remove`
unfoldable pub remove : ℕ → Store → ℕ → Store
remove head s node =
    let back = if s.next head == node then put s.prev node head else s.prev in
    let next = put_if s.next (back node) (s.next node) in
    let back' = put_if back (next node) (back node) in
    record {
      next = next;
      prev = put_if back' (next head) 0;
      tail = if node == s.tail then s.prev node else s.tail;
    }

unfoldable pub to_tail : ℕ → Store → ℕ → Store
unfolding remove append
to_tail head s node = append head (remove head s node) node
