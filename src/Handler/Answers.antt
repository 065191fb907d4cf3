-- ===== src/Handler/Answers.antt =====
-- What a handler has done that answers with a success.
use simple_registry.Base.{
  ℕ, Bool, true, false, ◌<◌, Result, ok, err, Action, panic, ◌≡◌, refl, sym, ◌∙◌, ap, inl, inr,
  if◌then◌else◌, arith,
}
use simple_registry.Handler.Refusals.{IsRefusal}
use simple_registry.Handler.Reply.{Response, answer, settle}
use simple_registry.Handler.Uploads.{or_500}

module _ {S : Type 0} {code : ℕ} (a : Response) (t : S) (answered : a.status ≡ code)
    (success : code < 400) where
  -- An answer of another status is not this one.
  pub other_status :
      (b : Response) (s : S) (n : ℕ)
      → b.status ≡ n
      → (¬ (n ≡ code))
      → (¬ (◌≡◌ {A = Result Response × S} (ok b, s) (ok a, t)))
  other_status b s n e ne h =
      let same : b ≡ a = cc in ne (sym e ∙ ap (λ z. z.status) same ∙ answered)

  -- Where the answer is a success, a check before it has not refused.
  pub passed :
      (b : Bool) (r : Response) (s : S) (k : Result Response × S)
      → IsRefusal r
      → (if b then (ok r, s) else k) ≡ (ok a, t)
      → (b ≡ false) × (k ≡ (ok a, t))
  passed false r s k refusal h = (refl, h)
  passed true r s k (inl e) h = absurd (other_status r s 400 e (λ e. omega arith) h)
  passed true r s k (inr (inl e)) h = absurd (other_status r s 401 e (λ e. omega arith) h)
  passed true r s k (inr (inr e)) h = absurd (other_status r s 403 e (λ e. omega arith) h)

  -- Where the answer is a success, the call of the storage before has succeeded.
  pub settle-or_500 :
      {A : Type 0} (k : A → Action S Response) (x : Result A × S)
      → settle (or_500 k) x ≡ (ok a, t)
      → (v : A) × (x.0 ≡ ok v) × (k v x.1 ≡ (ok a, t))
  settle-or_500 k (ok v, s) h = (v, refl, h)
  settle-or_500 k (err panic, s) h = absurd (cc)
  settle-or_500 k (err _, s) h = absurd (other_status (answer 500) s 500 refl (λ e. omega arith) h)
