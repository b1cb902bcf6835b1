-- ===== src/IpStore/Leases/Rules.antt =====
-- Operations of the IP manager as changes of the leases, with rules for the ways to build one.
use amazon_ecs_cni_plugins.Base.{
  ◌≡◌, subst, sym, fun_ext, Text, String, Bool, true, false, if◌then◌else◌, Result, ok, err, Option,
}
use amazon_ecs_cni_plugins.Base.Exec.{Exec, pure, lift, continue, annotate, ◌>>=◌, ◌note◌}
use amazon_ecs_cni_plugins.IpStore.Db.{Store, IsLawful}
use amazon_ecs_cni_plugins.IpStore.Manager.{IpManager}
use amazon_ecs_cni_plugins.IpStore.Manager.Effects.{contents}
use amazon_ecs_cni_plugins.IpStore.Leases.{Leases, updated, Steps, same}
use amazon_ecs_cni_plugins.IpStore.Leases.Facts.{Steps-trans, Steps-one}

module _ (S : Store) (L : IsLawful S) (R : Leases → Leases → Type 0) where
  -- From one state of the manager to another by steps of the relation.
  abbrev pub Moves : IpManager S → IpManager S → Type 0
  Moves m n = Steps R (contents S L m) (contents S L n)

  -- An operation that, whatever it returns, changes the leases by steps of the relation only.
  abbrev pub Refines : {A : Type 0} → Exec (IpManager S) A → Type 0
  Refines op = (m : IpManager S) → Moves m (op m).1

  pub Moves-of_eq :
      (m n : IpManager S) → ((j : Text) → contents S L n j ≡ contents S L m j) → Moves m n
  Moves-of_eq m n e = subst (Steps R (contents S L m)) (sym (fun_ext e)) same

  pub Moves-of_step :
      (m n : IpManager S) (k : Text) (v : Option Text)
      → R (contents S L m) (updated (contents S L m) k v)
      → ((j : Text) → contents S L n j ≡ updated (contents S L m) k v j)
      → Moves m n
  Moves-of_step m n k v r e = subst (Steps R (contents S L m)) (sym (fun_ext e)) (Steps-one r)

  pub Moves-continue :
      {A B : Type 0} (m : IpManager S) (r : Result A × IpManager S) (f : A → Exec (IpManager S) B)
      → Moves m r.1
      → ((a : A) → Refines (f a))
      → Moves m (continue r f).1
  Moves-continue m (ok a, n) f first next = Steps-trans first (next a n)
  Moves-continue m (err e, n) f first next = first

  pub Refines-then :
      {A B : Type 0} (op : Exec (IpManager S) A) (f : A → Exec (IpManager S) B)
      → Refines op
      → ((a : A) → Refines (f a))
      → Refines (op >>= f)
  Refines-then op f first next m = Moves-continue m (op m) f (first m) next

  pub Moves-annotate :
      {A : Type 0} (m : IpManager S) (text : String) (r : Result A × IpManager S)
      → Moves m r.1
      → Moves m (annotate text r).1
  Moves-annotate m text (ok a, n) h = h
  Moves-annotate m text (err e, n) h = h

  pub Refines-note :
      {A : Type 0} (op : Exec (IpManager S) A) (text : String) → Refines op → Refines (op note text)
  Refines-note op text r m = Moves-annotate m text (op m) (r m)

  pub Refines-pure : {A : Type 0} (a : A) → Refines (pure a)
  Refines-pure a m = same

  pub Refines-lift : {A : Type 0} (r : Result A) → Refines (lift r)
  Refines-lift r m = same

  pub Refines-if :
      {A : Type 0} (b : Bool) (op other : Exec (IpManager S) A)
      → Refines op
      → Refines other
      → Refines (if b then op else other)
  Refines-if true op other p q = p
  Refines-if false op other p q = q
