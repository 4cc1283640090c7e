-- ===== src/Examples/Lists.antt =====
-- The lists at a ring of two entries.
use so.Common.{◌≡◌, refl, [], ◌∷◌, arith, update, erase}
use so.ListHead.{Links, init_list_head, list_add_tail, list_del, list_for_each}
use so.ListHead.Ring.{Ring}
use so.ListHead.Insert.{Ring-list_add_tail}
use so.ListHead.Walk.{Ring-init_list_head, Ring-list_for_each}
use so.ListHead.Rings.{Rings, Rings-list_add_tail, Rings-list_del}
use so.Examples.State.{layout, live, rings, links, links-Queued}
use so.Sched.Queues.{is_head, is_field, is_childs}
use so.Kernel.{anchor}

abbrev one_entry : Links
one_entry = list_add_tail 8 100 (init_list_head 100 (record { next = λ p. 0; prev = λ p. 0 }))

one_entry-Ring : Ring one_entry 100 (8 ∷ [])
one_entry-Ring =
    Ring-list_add_tail 8 (Ring-init_list_head (record { next = λ p. 0; prev = λ p. 0 }) 100) refl

abbrev two_entries : Links
two_entries = list_add_tail 16 100 one_entry

two_entries-Ring : Ring two_entries 100 (8 ∷ 16 ∷ [])
two_entries-Ring = Ring-list_add_tail 16 one_entry-Ring refl

Ring-list_for_each_example : list_for_each 3 100 two_entries ≡ 8 ∷ 16 ∷ []
Ring-list_for_each_example = Ring-list_for_each 3 two_entries-Ring (omega arith)

-- Task 2 leaves the ready queue.
Rings-list_del_example :
    Rings (is_head layout live) (list_del (anchor 0x22000) links) (update rings layout.readyq [])
unfolding erase
Rings-list_del_example =
    Rings-list_del links-Queued.all layout.readyq (unfold is_head is_field in refl) (anchor 0x22000)
      refl

Rings-list_add_tail_example :
    Rings
      (is_head layout live)
      (list_add_tail 0x500 layout.freeq links)
      (update rings layout.freeq (anchor 0x24000 ∷ 0x500 ∷ []))
Rings-list_add_tail_example =
    Rings-list_add_tail links-Queued.all layout.freeq (unfold is_head is_field in refl) 0x500
      (λ hd k. unfold is_head is_childs is_field in ground arith)
