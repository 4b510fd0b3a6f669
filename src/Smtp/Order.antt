-- ===== src/Smtp/Order.antt =====
-- What a client must have sent before the server reads a mail: the machine of
-- generated/smtp-states-fsm.c, driven as `smtp_parse` of server/src/lib/smtp/state.c drives it.
use postman.Prelude.{
  ℕ, suc, ◌-◌, List, [], ◌∷◌, length, drop, ◌≡◌, refl, sym, ◌⊎◌, inl, inr, if◌then◌else◌,
}
use mathlib.Core.Path.{subst}
use postman.Smtp.Fsm.{
  AutofsmState, init, client_init, begin_transaction, transaction, read_data, invalid, done,
  AutofsmEvent, helo, mail, rcpt, data_ev, is_invalid_event, autofsm_step,
}

abbrev pub valid_or : AutofsmState → AutofsmState → AutofsmState
valid_or st invalid = st
valid_or st next = next

-- A refused event leaves the state as it was, and for an unknown command there is no step at all.
unfoldable pub advance : AutofsmState → AutofsmEvent → AutofsmState
unfolding autofsm_step is_invalid_event
advance st ev = if is_invalid_event ev then st else valid_or st (autofsm_step st ev)

unfoldable pub advance_all : AutofsmState → List AutofsmEvent → AutofsmState
unfolding advance
advance_all st [] = st
advance_all st (e ∷ es) = advance_all (advance st e) es

-- `xs` can be had from `ys` by leaving elements out.
pub data IsSubsequence : List AutofsmEvent → List AutofsmEvent → Type 0 where
  nil : {ys : List AutofsmEvent} → IsSubsequence [] ys
  keep :
      {x : AutofsmEvent} {xs ys : List AutofsmEvent}
      → IsSubsequence xs ys
      → IsSubsequence (x ∷ xs) (x ∷ ys)
  skip :
      {y : AutofsmEvent} {xs ys : List AutofsmEvent}
      → IsSubsequence xs ys
      → IsSubsequence xs (y ∷ ys)

tail-IsSubsequence :
    {x : AutofsmEvent} {xs ys : List AutofsmEvent} → IsSubsequence (x ∷ xs) ys → IsSubsequence xs ys
tail-IsSubsequence (keep s) = skip s
tail-IsSubsequence (skip s) = skip (tail-IsSubsequence s)

drop-IsSubsequence :
    (n : ℕ) (xs : List AutofsmEvent) {ys : List AutofsmEvent}
    → IsSubsequence xs ys
    → IsSubsequence (drop n xs) ys
drop-IsSubsequence ℕ.zero xs s = s
drop-IsSubsequence (suc n) [] s = s
drop-IsSubsequence (suc n) (x ∷ xs) s = drop-IsSubsequence n xs (tail-IsSubsequence s)

-- What has still to come before the mail is read.
abbrev needed : AutofsmState → List AutofsmEvent
needed client_init = mail ∷ rcpt ∷ data_ev ∷ []
needed begin_transaction = rcpt ∷ data_ev ∷ []
needed transaction = data_ev ∷ []
needed read_data = []
needed _ = helo ∷ mail ∷ rcpt ∷ data_ev ∷ []

advance-needed :
    (st : AutofsmState) (e : AutofsmEvent)
    → (needed st ≡ e ∷ needed (advance st e))
      ⊎ (drop (length (needed (advance st e)) - length (needed st)) (needed (advance st e))
          ≡ needed st)
unfolding advance
advance-needed init helo = inl refl
advance-needed client_init mail = inl refl
advance-needed begin_transaction rcpt = inl refl
advance-needed transaction data_ev = inl refl
advance-needed read_data helo = inr refl
advance-needed invalid helo = inr refl
advance-needed done helo = inr refl
advance-needed _ _ = inr refl

needed-IsSubsequence :
    (st : AutofsmState) (es : List AutofsmEvent)
    → advance_all st es ≡ read_data
    → IsSubsequence (needed st) es
unfolding advance_all
needed-IsSubsequence st [] h = subst (λ s. IsSubsequence (needed s) []) (sym h) nil
needed-IsSubsequence st (e ∷ es) h = elim (advance-needed st e) [
  | inl p ↦ subst (λ l. IsSubsequence l (e ∷ es)) (sym p) (keep (needed-IsSubsequence _ es h))
  | inr p ↦
      subst (λ l. IsSubsequence l (e ∷ es)) p
        (skip (drop-IsSubsequence _ _ (needed-IsSubsequence (advance st e) es h)))
]

-- A dialogue that starts in the initial state reads mail text only after a greeting, a sender, a
-- recipient and the DATA command were received, in this order among the commands.
pub read_data-needs_all :
    (es : List AutofsmEvent)
    → advance_all init es ≡ read_data
    → IsSubsequence (helo ∷ mail ∷ rcpt ∷ data_ev ∷ []) es
read_data-needs_all es h = needed-IsSubsequence init es h
