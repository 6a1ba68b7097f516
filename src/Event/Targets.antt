-- ===== src/Event/Targets.antt =====
-- Which handler gets an event.
use ios_sdk_develop.Prelude.{
  ℕ, ◌≡◌, refl, ap, ◌∙◌, Bool, true, false, Option, none, some, Text, text_eq, text_eq_refl,
  text_eq→eq, lookup, lookup-set_key, if◌then◌else◌,
}
use ios_sdk_develop.Event.{
  Event, EventTarget, Handlers, register_event_handler, event_handler_with_identifier,
  deliver_to_handler, handle_event,
}

-- After a handler was registered for an identifier, or none was, an event whose target has an identifier
-- and no block goes to this handler if the identifiers are the same, and is dropped there if it was none;
-- for another identifier nothing changes.
pub handle_event-register :
    (handler : Option ℕ) (identifier other : Text) (t : EventTarget) (e : Event) (hs : Handlers)
    → t.event_handler_block ≡ none
    → t.event_handler_identifier ≡ some other
    → handle_event t e (register_event_handler handler (some identifier) hs)
      ≡ (if text_eq identifier other then deliver_to_handler handler e else handle_event t e hs)
unfolding handle_event register_event_handler event_handler_with_identifier
handle_event-register handler identifier other t e hs block target =
    rw (block, target)
      (ap (λ h. deliver_to_handler h e)
          (lookup-set_key text_eq text_eq→eq text_eq_refl identifier other handler hs)
        ∙ deliver-if (text_eq identifier other) handler (lookup text_eq other hs))
  where
    deliver-if :
        (b : Bool) (h k : Option ℕ)
        → deliver_to_handler (if b then h else k) e
          ≡ (if b then deliver_to_handler h e else deliver_to_handler k e)
    deliver-if true h k = refl
    deliver-if false h k = refl
