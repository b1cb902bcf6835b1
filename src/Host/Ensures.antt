-- ===== src/Host/Ensures.antt =====
-- What an action gives if it succeeds, with rules for the ways to build an action.
use amazon_ecs_cni_plugins.Base.{◌≡◌, ◌∙◌, ap, sym, String, Result, ok}
use amazon_ecs_cni_plugins.Base.Exec.{lift, ◌>>=◌, ◌note◌, continue-ok, annotate-ok}
use amazon_ecs_cni_plugins.Host.{History, Action, Call, ask}

-- What an action gives whenever it succeeds.
pub record Ensures {A : Type 0} (P : A → Type 0) (act : Action A) : Type 0 where
  pub ensured : (h : History) (a : A) → (act h).0 ≡ ok a → P a

pub Ensures-then :
    {A B : Type 0} (Q : A → Type 0) (P : B → Type 0) (act : Action A) (f : A → Action B)
    → Ensures Q act
    → ((a : A) → Q a → Ensures P (f a))
    → Ensures P (act >>= f)
Ensures-then Q P act f first next = record {
  ensured = λ h b e.
      let (a, q, same) = continue-ok (act h) f b e in
      (next a (first.ensured h a q)).ensured (act h).1 b (ap (λ r. r.0) (sym same) ∙ e);
}

pub Ensures-any :
    {A B : Type 0} (P : B → Type 0) (act : Action A) (f : A → Action B)
    → ((a : A) → Ensures P (f a))
    → Ensures P (act >>= f)
Ensures-any P act f next =
    Ensures-then (λ a. Unit) P act f (record { ensured = λ h a e. tt }) λ a u. next a

pub Ensures-note :
    {A : Type 0} (P : A → Type 0) (text : String) (act : Action A)
    → Ensures P act
    → Ensures P (act note text)
Ensures-note P text act e = record {
  ensured = λ h a q. e.ensured h a (annotate-ok text (act h) a q).0;
}

pub Ensures-ask :
    {A : Type 0} (c : Call) (answer : History → Result A)
    → Ensures (λ a. (h : History) × (answer h ≡ ok a)) (ask c answer)
Ensures-ask c answer = record { ensured = λ h a q. (h, q) }

pub Ensures-lift : {A : Type 0} (r : Result A) → Ensures (λ a. r ≡ ok a) (lift r)
Ensures-lift r = record { ensured = λ h a q. q }
