-- ===== src/Host/IpamCalls.antt =====
-- The calls of IPAM plugins in a history, and the actions that make none.
use amazon_ecs_cni_plugins.Base.{
  ◌≡◌, ◌∙◌, ap, refl, inl, inr, Bool, true, false, List, ◌∷◌, keep, String, Text, if◌then◌else◌,
  ◌⊎◌, Error, Result, ok, err,
}
use amazon_ecs_cni_plugins.Base.Exec.{lift, continue, annotate, ◌>>=◌, ◌note◌}
use amazon_ecs_cni_plugins.Host.{
  Host, Call, History, Action, ask, exec_add, exec_del, enter_ns, with_net_ns_path,
}

abbrev pub is_ipam : Call → Bool
is_ipam (exec_add plugin conf) = true
is_ipam (exec_del plugin conf) = true
is_ipam _ = false

-- The calls of IPAM plugins, the latest first.
abbrev pub ipam_calls : History → List Call
ipam_calls h = keep is_ipam h

-- Whether it succeeds or fails, an action calls no IPAM plugin.
pub record Quiet {A : Type 0} (m : Action A) : Type 0 where
  pub unheard : (h : History) → ipam_calls (m h).1 ≡ ipam_calls h

pub Quiet-ask :
    {A : Type 0} (c : Call) (answer : History → Result A) → is_ipam c ≡ false → Quiet (ask c answer)
Quiet-ask c answer e = record { unheard = λ h. rw e refl }

pub Quiet-lift : {A : Type 0} (r : Result A) → Quiet (lift r)
Quiet-lift r = record { unheard = λ h. refl }

continue-unheard :
    {A B : Type 0} (cs : List Call) (r : Result A × History) (f : A → Action B)
    → ((a : A) → Quiet (f a))
    → ipam_calls r.1 ≡ cs
    → ipam_calls (continue r f).1 ≡ cs
continue-unheard cs (ok a, h) f next e = (next a).unheard h ∙ e
continue-unheard cs (err x, h) f next e = e

pub Quiet-then :
    {A B : Type 0} (m : Action A) (f : A → Action B)
    → Quiet m
    → ((a : A) → Quiet (f a))
    → Quiet (m >>= f)
Quiet-then m f first next = record {
  unheard = λ h. continue-unheard (ipam_calls h) (m h) f next (first.unheard h);
}

annotate-unheard :
    {A : Type 0} (text : String) (cs : List Call) (r : Result A × History)
    → ipam_calls r.1 ≡ cs
    → ipam_calls (annotate text r).1 ≡ cs
annotate-unheard text cs (ok a, h) e = e
annotate-unheard text cs (err x, h) e = e

pub Quiet-note : {A : Type 0} (text : String) (m : Action A) → Quiet m → Quiet (m note text)
Quiet-note text m q = record {
  unheard = λ h. annotate-unheard text (ipam_calls h) (m h) (q.unheard h);
}

pub Quiet-with_net_ns_path :
    {A : Type 0} (host : Host) (path : Text) (m : Action A)
    → Quiet m
    → Quiet (with_net_ns_path host path m)
unfolding with_net_ns_path
Quiet-with_net_ns_path host path m q =
    Quiet-then (ask (enter_ns path) (λ h. host.done h (enter_ns path))) (λ _. m)
      (Quiet-ask (enter_ns path) (λ h. host.done h (enter_ns path)) refl) (λ _. q)

pub Quiet-if :
    {A : Type 0} (b : Bool) (m n : Action A) → Quiet m → Quiet n → Quiet (if b then m else n)
Quiet-if true m n q r = q
Quiet-if false m n q r = r

-- Whether it succeeds or fails, an action makes this one call of an IPAM plugin.
pub record Loud {A : Type 0} (c : Call) (m : Action A) : Type 0 where
  pub loud : (h : History) → ipam_calls (m h).1 ≡ c ∷ ipam_calls h

-- This one call was made since a history; or none, and there is an error.
abbrev pub IsHeard : {A : Type 0} → Call → History → Result A × History → Type 0
IsHeard c h r =
    (ipam_calls r.1 ≡ c ∷ ipam_calls h)
    ⊎ ((ipam_calls r.1 ≡ ipam_calls h) × ((e : Error) × (r.0 ≡ err e)))

-- An action that makes this one call, if it does not fail before.
pub record Heard {A : Type 0} (c : Call) (m : Action A) : Type 0 where
  pub heard : (h : History) → IsHeard c h (m h)

pub Loud-then :
    {A B : Type 0} (c : Call) (m : Action A) (f : A → Action B)
    → Loud c m
    → ((a : A) → Quiet (f a))
    → Loud c (m >>= f)
Loud-then c m f first next = record {
  loud = λ h. continue-unheard (c ∷ ipam_calls h) (m h) f next (first.loud h);
}

pub Heard-Loud : {A : Type 0} (c : Call) (m : Action A) → Loud c m → Heard c m
Heard-Loud c m l = record { heard = λ h. inl (l.loud h) }

continue-IsHeard :
    {A B : Type 0} (c : Call) (h : History) (r : Result A × History) (f : A → Action B)
    → ipam_calls r.1 ≡ ipam_calls h
    → ((a : A) → Heard c (f a))
    → IsHeard c h (continue r f)
continue-IsHeard c h (err e, h') f same next = inr (same, (e, refl))
continue-IsHeard c h (ok a, h') f same next = elim ((next a).heard h') [
  | inl once ↦ inl (once ∙ ap (λ cs. c ∷ cs) same)
  | inr (none_made, failed) ↦ inr (none_made ∙ same, failed)
]

pub Heard-then :
    {A B : Type 0} (c : Call) (m : Action A) (f : A → Action B)
    → Quiet m
    → ((a : A) → Heard c (f a))
    → Heard c (m >>= f)
Heard-then c m f first next = record {
  heard = λ h. continue-IsHeard c h (m h) f (first.unheard h) next;
}

pub Heard-lift :
    {A B : Type 0} (c : Call) (r : Result A) (a : A) (f : A → Action B)
    → r ≡ ok a
    → Heard c (f a)
    → Heard c (lift r >>= f)
Heard-lift c r a f e n = record { heard = λ h. rw e (n.heard h) }
