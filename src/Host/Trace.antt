-- ===== src/Host/Trace.antt =====
-- Which calls an action that succeeds has made, in their order, with rules for the ways to build
-- an action.
use amazon_ecs_cni_plugins.Base.{
  ◌≡◌, refl, ◌∙◌, ap, sym, subst, List, [], ◌∷◌, ◌++◌, onto, onto-append, String, Text, ok,
}
use amazon_ecs_cni_plugins.Base.Exec.{continue-ok, annotate-ok, pure, ◌>>◌, ◌note◌}
use amazon_ecs_cni_plugins.Host.{Host, Call, History, Action, call, with_net_ns_path, enter_ns}

-- A success has made the calls of `calls x`, for some `x`.
abbrev pub LeavesSome : {X : Type 0} → Action (Unit {0}) → (X → List Call) → Type 0
LeavesSome {X} m calls = (h : History) → (m h).0 ≡ ok tt → (x : X) × ((m h).1 ≡ onto (calls x) h)

abbrev pub Leaves : Action (Unit {0}) → List Call → Type 0
Leaves m calls = (h : History) → (m h).0 ≡ ok tt → (m h).1 ≡ onto calls h

pub Leaves-call : (host : Host) (c : Call) → Leaves (call host c) (c ∷ [])
Leaves-call host c h e = refl

pub Leaves-pure : Leaves (pure tt) []
Leaves-pure h e = refl

pub Leaves-note :
    (text : String) (m : Action (Unit {0})) (cs : List Call) → Leaves m cs → Leaves (m note text) cs
Leaves-note text m cs l h e =
    let (done, same) = annotate-ok text (m h) tt e in ap (λ r. r.1) same ∙ l h done

pub LeavesSome-then :
    {X : Type 0} (m k : Action (Unit {0})) (cs : List Call) (calls : X → List Call)
    → Leaves m cs
    → LeavesSome k calls
    → LeavesSome (m >> k) (λ x. cs ++ calls x)
LeavesSome-then m k cs calls l r h e =
    let (u, done, same) = continue-ok (m h) (λ _. k) tt e in
    let (x, after) = r (m h).1 (subst (λ t. t.0 ≡ ok tt) same e) in
    (
      x,
      ap (λ t. t.1) same
          ∙ after
          ∙ ap (onto (calls x)) (l h done)
          ∙ sym (onto-append cs (calls x) h),
    )

pub Leaves-then :
    (m k : Action (Unit {0})) (cs ds : List Call)
    → Leaves m cs
    → Leaves k ds
    → Leaves (m >> k) (cs ++ ds)
Leaves-then m k cs ds l r h e =
    (LeavesSome-then {X = Unit} m k cs (λ _. ds) l (λ i f. (tt, r i f)) h e).1

pub Leaves-with_net_ns_path :
    (host : Host) (path : Text) (m : Action (Unit {0})) (cs : List Call)
    → Leaves m cs
    → Leaves (with_net_ns_path host path m) (enter_ns path ∷ cs)
unfolding with_net_ns_path
Leaves-with_net_ns_path host path m cs l =
    Leaves-then (call host (enter_ns path)) m (enter_ns path ∷ []) cs
      (Leaves-call host (enter_ns path)) l
