-- ===== src/Console/Pages/Shown/Kinds.antt =====
-- apps/command-server/src/console.rs: the kind of session events that a query names.
use ruchat.Prelude.{
  String, ◌≡◌, refl, true, false, Bool-cases, ◌⊎◌, inl, inr, Option, none, some, [], ◌∷◌, arith,
  eq_iff, str_eq,
}
use ruchat.Prelude.Text.{trim}
use ruchat.Prelude.Result.{ok, err}
use ruchat.Protocol.Domain.{
  SessionEventKind, connect_rejected, auth_failed, session_opened, node_registered, session_closed,
}
use ruchat.Db.Text.{session_event_kind_to_str}
use ruchat.Console.Pages.Texts.{concat_text}
use ruchat.Console.Pages.Filters.{parse_session_event_kind_value}

-- What the kind of a query names: no kind, or the kind that is spelled so in the table of events.
abbrev pub Named : String → Option SessionEventKind → Type 0
Named text none = text ≡ ""
Named text (some kind) = text ≡ session_event_kind_to_str kind

-- A text that is not the given one is not tested as equal to it.
named_so : (text word : String) → str_eq text word ≡ true → text ≡ word
named_so text word e = (eq_iff text word).0 e

not_so : (text word : String) → str_eq text word ≡ false → text ≡ word → ⊥
not_so text word e same = absurd (grind (arith, (eq_iff text word).1 same))

no_such_kind :
    (text : String)
    → str_eq text "" ≡ false
    → str_eq text "connect_rejected" ≡ false
    → str_eq text "auth_failed" ≡ false
    → str_eq text "session_opened" ≡ false
    → str_eq text "node_registered" ≡ false
    → str_eq text "session_closed" ≡ false
    → (kind : Option SessionEventKind) → Named text kind
    → ⊥
unfolding session_event_kind_to_str
no_such_kind text e0 e1 e2 e3 e4 e5 none = not_so text _ e0
no_such_kind text e0 e1 e2 e3 e4 e5 (some connect_rejected) = not_so text _ e1
no_such_kind text e0 e1 e2 e3 e4 e5 (some auth_failed) = not_so text _ e2
no_such_kind text e0 e1 e2 e3 e4 e5 (some session_opened) = not_so text _ e3
no_such_kind text e0 e1 e2 e3 e4 e5 (some node_registered) = not_so text _ e4
no_such_kind text e0 e1 e2 e3 e4 e5 (some session_closed) = not_so text _ e5

-- The kind of a query is parsed exactly if it names one.
pub parse_session_event_kind_value_total :
    (value : String)
    → (((kind : Option SessionEventKind) → Named (trim value) kind → ⊥)
        × (parse_session_event_kind_value value
            ≡ err (concat_text ("unknown session event kind: " ∷ trim value ∷ []))))
      ⊎ ((kind : Option SessionEventKind) × Named (trim value) kind
          × (parse_session_event_kind_value value ≡ ok kind))
unfolding parse_session_event_kind_value session_event_kind_to_str
parse_session_event_kind_value_total value =
    let text = trim value in
    elim (Bool-cases (str_eq text "")) [
      | inl e ↦ inr (none, named_so text _ e, rw e refl)
      | inr e0 ↦ elim (Bool-cases (str_eq text "connect_rejected")) [
        | inl e ↦ inr (some connect_rejected, named_so text _ e, rw (e0, e) refl)
        | inr e1 ↦ elim (Bool-cases (str_eq text "auth_failed")) [
          | inl e ↦ inr (some auth_failed, named_so text _ e, rw (e0, e1, e) refl)
          | inr e2 ↦ elim (Bool-cases (str_eq text "session_opened")) [
            | inl e ↦ inr (some session_opened, named_so text _ e, rw (e0, e1, e2, e) refl)
            | inr e3 ↦ elim (Bool-cases (str_eq text "node_registered")) [
              | inl e ↦ inr (some node_registered, named_so text _ e, rw (e0, e1, e2, e3, e) refl)
              | inr e4 ↦ elim (Bool-cases (str_eq text "session_closed")) [
                | inl e ↦
                    inr (some session_closed, named_so text _ e, rw (e0, e1, e2, e3, e4, e) refl)
                | inr e5 ↦
                    inl (no_such_kind text e0 e1 e2 e3 e4 e5, rw (e0, e1, e2, e3, e4, e5) refl)
              ]
            ]
          ]
        ]
      ]
    ]
