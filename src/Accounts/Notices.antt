-- ===== src/Accounts/Notices.antt =====
-- The notices of accounts that need a login (src/core/claude_accounts.py).
use claude_code_manager.Base.{
  ◌≡◌, refl, ap, ◌∙◌, Bool, true, false, not, ◌&&◌, List, [], ◌∷◌, if◌then◌else◌, filter, ◌==◌,
  Text, Text_eq, ==-refl, text_eq_iff, arith, Bool-cases, inl, inr,
}
use claude_code_manager.Accounts.{login_notice_due, is_member}

-- A call of `login_notice_due`.
abbrev pub Call : Type 0
Call = Text × Bool

-- The accounts that are notified after calls, of which the newest is the first.
unfoldable pub notified_after : List Call → List Text
notified_after [] = []
notified_after (call ∷ past) = (login_notice_due call.0 call.1 (notified_after past)).1

-- Whether the newest call for the account found it unhealthy.
unfoldable pub was_unhealthy : Text → List Call → Bool
was_unhealthy label [] = false
was_unhealthy label ((l, unhealthy) ∷ past) =
    if l == label then unhealthy else was_unhealthy label past

is_member-filter_same :
    (label : Text) (labels : List Text)
    → is_member label (filter (λ l. not (l == label)) labels) ≡ false
is_member-filter_same label [] = refl
is_member-filter_same label (l ∷ labels) = elim (Bool-cases (l == label)) [
  | inl same ↦ rw same (is_member-filter_same label labels)
  | inr other ↦ rw other (rw other (is_member-filter_same label labels))
]

is_member-filter_other :
    (label gone : Text) (labels : List Text)
    → (gone == label) ≡ false
    → is_member label (filter (λ l. not (l == gone)) labels) ≡ is_member label labels
is_member-filter_other label gone [] h = refl
is_member-filter_other label gone (l ∷ labels) h =
    let rest = is_member-filter_other label gone labels h in
    elim (Bool-cases (l == gone)) [
      | inl same ↦
          let e : l ≡ gone = (text_eq_iff l gone).0 same in
          let apart : (l == label) ≡ false = rw e h in rw (same, apart) rest
      | inr kept ↦ rw (kept, rest) refl
    ]

is_member-notice :
    (label l : Text) (unhealthy : Bool) (labels : List Text)
    → is_member label (login_notice_due l unhealthy labels).1
      ≡ (if l == label then unhealthy else is_member label labels)
unfolding login_notice_due
is_member-notice label l false labels = elim (Bool-cases (l == label)) [
  | inl same ↦
      let e : l ≡ label = (text_eq_iff l label).0 same in
      rw e (rw (==-refl label) (is_member-filter_same label labels))
  | inr other ↦ rw other (is_member-filter_other label l labels other)
]
is_member-notice label l true labels = elim (Bool-cases (is_member l labels)) [
  | inl there ↦ elim (Bool-cases (l == label)) [
    | inl same ↦
        let e : l ≡ label = (text_eq_iff l label).0 same in rw there (rw same (rw e at there))
    | inr other ↦ rw (there, other) refl
  ]
  | inr away ↦ rw away refl
]

is_member-notified :
    (label : Text) (past : List Call)
    → is_member label (notified_after past) ≡ was_unhealthy label past
unfolding notified_after was_unhealthy
is_member-notified label [] = refl
is_member-notified label ((l, unhealthy) ∷ past) =
    is_member-notice label l unhealthy (notified_after past)
    ∙ ap (λ b. if l == label then unhealthy else b) (is_member-notified label past)

-- Whatever calls came before, for whatever accounts: a call asks for a notice exactly where it finds
-- the account unhealthy and the call before it for this account, if there was one, did not.
pub login_notice_due_iff :
    (label : Text) (unhealthy : Bool) (past : List Call)
    → (login_notice_due label unhealthy (notified_after past)).0
      ≡ unhealthy && not (was_unhealthy label past)
unfolding login_notice_due
login_notice_due_iff label false past = refl
login_notice_due_iff label true past = ground (arith, is_member-notified label past)
