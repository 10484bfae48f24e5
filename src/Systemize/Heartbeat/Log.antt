-- ===== src/Systemize/Heartbeat/Log.antt =====
-- The list of steps of a heartbeat, to which each write appends one.
use agentic_dev_kit.Base.{◌≡◌, refl, some}
use agentic_dev_kit.Base.Json.{Json, arr, Items, nil, cons}
use agentic_dev_kit.Systemize.Heartbeat.{append_step}

-- one list of items behind another
unfoldable pub append_items : Items → Items → Items
append_items nil ys = ys
append_items (cons x xs) ys = cons x (append_items xs ys)

pub append_items-nil : (xs : Items) → append_items xs nil ≡ xs
unfolding append_items
append_items-nil nil = refl
append_items-nil (cons x xs) = cc (append_items-nil xs)

pub append_items_assoc :
    (xs ys zs : Items) → append_items (append_items xs ys) zs ≡ append_items xs (append_items ys zs)
unfolding append_items
append_items_assoc nil ys zs = refl
append_items_assoc (cons x xs) ys zs = cc (append_items_assoc xs ys zs)

pub append_step_lem :
    (xs : Items) (entry : Json)
    → append_step (some (arr xs)) entry ≡ some (append_items xs (cons entry nil))
unfolding append_step append_items
append_step_lem nil entry = refl
append_step_lem (cons x xs) entry = rw (append_step_lem xs entry) refl
