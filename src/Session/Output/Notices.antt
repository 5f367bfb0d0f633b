-- ===== src/Session/Output/Notices.antt =====
-- What `bfdNotify` sends, as a list.
use mathlib.Core.List.{reverse, reverse-cons, append_assoc}
use free_bfd.Base.{◌≡◌, refl, sym, ◌∙◌, ap, List, [], ◌∷◌, ◌++◌, map}
use free_bfd.Session.{State, Notifier, Event, notified, Ctx}
use free_bfd.Session.Output.{notify_all, notify_state}

-- One call for each subscriber, the last one first.
abbrev pub calls : List Notifier → State → List Event
calls ns state = reverse (map (λ n. notified n.cb n.cb_arg state) ns)

module _ {T : Type 0} where
  notify_all_lem :
      (ns : List Notifier) (state : State) (c : Ctx T)
      → notify_all ns state c ≡ record c { out = calls ns state ++ c.out }
  unfolding notify_all
  notify_all_lem [] state c = refl
  notify_all_lem (n ∷ ns) state c =
      notify_all_lem ns state _
      ∙ ap (λ o. record c { out = o })
          (sym (
            ap (λ es. es ++ c.out)
              (reverse-cons (notified n.cb n.cb_arg state)
                (map (λ m. notified m.cb m.cb_arg state) ns))
            ∙ append_assoc (calls ns state) (notified n.cb n.cb_arg state ∷ []) c.out))

  pub notify_state_lem :
      (c : Ctx T)
      → notify_state c ≡ record c { out = calls c.bfd.notify c.bfd.session_state ++ c.out }
  unfolding notify_state
  notify_state_lem c = notify_all_lem c.bfd.notify c.bfd.session_state c
