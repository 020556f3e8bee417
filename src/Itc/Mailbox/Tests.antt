-- ===== src/Itc/Mailbox/Tests.antt =====
-- A post between the store of Blocked and the sleep.
use affini_x.Base.{◌≡◌, refl, true, false, List, [], ◌∷◌}
use affini_x.Core.Context.{no_deadline}
use affini_x.Itc.Mailbox.{
  PostedItem, polling, create, run, Action, claims, publishes, looks, arms, stores, rechecks,
}
use affini_x.Itc.Mailbox.Wake.{is_lost, no_lost_wakeup}

abbrev item : PostedItem
item = record { fn = 7; deadline = no_deadline }

-- The item is published when the consumer has looked at the ring for the second time.
abbrev race : List Action
race = arms true ∷ stores ∷ claims ∷ rechecks ∷ publishes 0 item ∷ looks ∷ []

-- The producer publishes and looks between the first look at the ring and the store of Blocked.
abbrev early_look : List Action
early_look = arms true ∷ claims ∷ publishes 0 item ∷ looks ∷ stores ∷ rechecks ∷ []

race_wakes : (run race (create 4)).wake ≡ true
unfolding run create
race_wakes = refl

early_look_stays_awake : (run early_look (create 4)).phase ≡ polling
unfolding run create
early_look_stays_awake = refl

no_lost_wakeup_example : is_lost (run early_look (create 4)) ≡ false
no_lost_wakeup_example = no_lost_wakeup 4 early_look
