-- ===== src/Money/Events.antt =====
-- What the webhook's status and event mean (classifyZengapayEvent).
use myfipay.Base.{
  ℕ, ◌≡◌, ◌↔◌, refl, ◌⊎◌, inl, inr, List, [], ◌∷◌, Bool, true, false, ◌||◌, arith, codes,
  codes_beq_iff, Bool-cases,
}
use myfipay.Money.{
  to_upper, success, failed, ignored, is_success, is_failure, classify_zengapay_event,
}

to_upper_idem : (s : List ℕ) → to_upper (to_upper s) ≡ to_upper s
unfolding to_upper
to_upper_idem [] = refl
to_upper_idem (c ∷ s) = ground (arith, to_upper_idem s)

-- Letter case never matters, neither in the status nor in the event.
classify_ignores_case :
    (status event : List ℕ)
    → classify_zengapay_event (to_upper status) (to_upper event)
      ≡ classify_zengapay_event status event
unfolding classify_zengapay_event
classify_ignores_case status event = rw (to_upper_idem status, to_upper_idem event)

-- In upper case, the texts that signal success, and those that signal failure.
abbrev pub SignalsSuccess : List ℕ → List ℕ → Type 0
SignalsSuccess status event =
    (status ≡ codes "SUCCEEDED")
    ⊎ (status ≡ codes "SUCCESSFUL")
    ⊎ (status ≡ codes "COMPLETED")
    ⊎ (event ≡ codes "COLLECTION.SUCCESS")

abbrev pub SignalsFailure : List ℕ → List ℕ → Type 0
SignalsFailure status event =
    (status ≡ codes "FAILED") ⊎ (status ≡ codes "FAILURE") ⊎ (event ≡ codes "COLLECTION.FAILED")

or_iff : (a b : Bool) {P Q : Type 0} → (a ≡ true) ↔ P → (b ≡ true) ↔ Q → ((a || b) ≡ true) ↔ (P ⊎ Q)
or_iff true b p q = (λ _. inl (p.0 refl), λ _. refl)
or_iff false b p q = (λ e. inr (q.0 e), λ s. elim s [ inl x ↦ cc (p.1 x) | inr y ↦ q.1 y ])

is_success_iff : (s e : List ℕ) → (is_success s e ≡ true) ↔ SignalsSuccess s e
unfolding is_success
is_success_iff s e =
    or_iff _ _ (codes_beq_iff s _)
      (or_iff _ _ (codes_beq_iff s _) (or_iff _ _ (codes_beq_iff s _) (codes_beq_iff e _)))

is_failure_iff : (s e : List ℕ) → (is_failure s e ≡ true) ↔ SignalsFailure s e
unfolding is_failure
is_failure_iff s e =
    or_iff _ _ (codes_beq_iff s _) (or_iff _ _ (codes_beq_iff s _) (codes_beq_iff e _))

refuted : {b : Bool} {P : Type 0} → (b ≡ true) ↔ P → b ≡ false → ¬ P
refuted h e p = cc (h.1 p)

classified :
    (status event : List ℕ) {P Q : Type 0}
    → (is_success (to_upper status) (to_upper event) ≡ true) ↔ P
    → (is_failure (to_upper status) (to_upper event) ≡ true) ↔ Q
    → let outcome = classify_zengapay_event status event in
      (P × (outcome ≡ success))
      ⊎ ((¬ P) × Q × (outcome ≡ failed))
      ⊎ ((¬ P) × (¬ Q) × (outcome ≡ ignored))
unfolding classify_zengapay_event
classified status event p q = elim (Bool-cases (is_success (to_upper status) (to_upper event))) [
  | inl good ↦ inl (p.0 good, rw good)
  | inr other ↦ elim (Bool-cases (is_failure (to_upper status) (to_upper event))) [
    | inl bad ↦ inr (inl (refuted p other, q.0 bad, rw (other, bad)))
    | inr neither ↦ inr (inr (refuted p other, refuted q neither, rw (other, neither)))
  ]
]

-- A webhook counts as a success exactly when, in any letter case, its status is SUCCEEDED, SUCCESSFUL
-- or COMPLETED or its event is COLLECTION.SUCCESS; as a failure exactly when none of these holds and
-- its status is FAILED or FAILURE or its event is COLLECTION.FAILED; and otherwise it is ignored.
pub classify_zengapay_event_cases :
    (status event : List ℕ)
    → let s = to_upper status in
      let e = to_upper event in
      let outcome = classify_zengapay_event status event in
      (SignalsSuccess s e × (outcome ≡ success))
      ⊎ ((¬ SignalsSuccess s e) × SignalsFailure s e × (outcome ≡ failed))
      ⊎ ((¬ SignalsSuccess s e) × (¬ SignalsFailure s e) × (outcome ≡ ignored))
classify_zengapay_event_cases status event =
    classified status event (is_success_iff (to_upper status) (to_upper event))
      (is_failure_iff (to_upper status) (to_upper event))
