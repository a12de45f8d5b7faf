-- ===== src/Focus/Examples.antt =====
-- services_focus_manager/src/lib.rs: the theorems at concrete stacks.
use panda_gen.Prelude.{◌+◌, ◌≡◌, [], ok, arith}
use panda_gen.Focus.{InputSubscriptionCap, FocusManager, new, request_focus, remove_subscription}
use panda_gen.Focus.Audit.{Reach, here, next, requests, told, stack_ids, Reach-told}
use panda_gen.Focus.Stacking.{occurrences, remove_subscription-occurrences}

abbrev editor : InputSubscriptionCap
editor = record { id = 1; task_id = 10; channel = 20 }

abbrev console : InputSubscriptionCap
console = record { id = 2; task_id = 11; channel = 21 }

-- The editor asked for the focus, then the console, then the editor again.
abbrev editor_twice : FocusManager
unfolding request_focus
editor_twice = (request_focus (request_focus (request_focus new editor).0 console).0 editor).0

editor_twice-Reach : Reach new editor_twice
unfolding request_focus
editor_twice-Reach =
    next (next (next here (requests new editor)) (requests (request_focus new editor).0 console))
      (requests (request_focus (request_focus new editor).0 console).0 editor)

Reach-told_example : told [] editor_twice.audit_trail ≡ stack_ids editor_twice.focus_stack
Reach-told_example = Reach-told editor_twice editor_twice-Reach

-- The editor keeps a place on the stack after its removal.
remove_subscription-occurrences_example :
    ((remove_subscription editor_twice editor).1 ≡ ok tt)
    × (occurrences 1 editor_twice.focus_stack
        ≡ 1 + occurrences 1 (remove_subscription editor_twice editor).0.focus_stack)
unfolding editor_twice request_focus
remove_subscription-occurrences_example =
    remove_subscription-occurrences editor_twice editor (ground arith) 1
