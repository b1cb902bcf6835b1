-- ===== src/IpStore/Leases/Searches.antt =====
-- The searches for an address and ReleaseByID as changes of the leases.
use amazon_ecs_cni_plugins.Base.{◌∙◌, ◌&&◌, ◌++◌, drop, length}
use amazon_ecs_cni_plugins.Net.{is_nil}
use amazon_ecs_cni_plugins.IpStore.Manager.{masked16}
use amazon_ecs_cni_plugins.IpStore.Manager.Effects.{assign-key_exists}
use amazon_ecs_cni_plugins.IpStore.Manager.EffectsV6.{assign_ipv6-key_exists}
use amazon_ecs_cni_plugins.IpStore.Allocate.Search.{
  round-free, round-taken, round-failed, is_key_exists-eq,
}
use amazon_ecs_cni_plugins.IpStore.Allocate.SearchV6.{
  get_available_ipv6-none, get_available_ipv6-some, round_v6-free, round_v6-taken, round_v6-failed,
}
use amazon_ecs_cni_plugins.Base.{
  ℕ, zero, suc, inl, inr, sym, ap, subst, Bool-cases, Option-cases, Result-cases, if◌then◌else◌,
  Text, text_eq, [], ok, err, is_key_exists, is_key_not_found,
}
use amazon_ecs_cni_plugins.Net.{Ip, IpNet, equal}
use amazon_ecs_cni_plugins.Net.Format.{show_ip}
use amazon_ecs_cni_plugins.IpStore.Next.{next_ip, next_ipv6}
use amazon_ecs_cni_plugins.IpStore.Db.{Store, IsLawful}
use amazon_ecs_cni_plugins.IpStore.Manager.{
  assign, assign_ipv6, release, release_ipv6, find_key, ip_prefix, ip_prefix_v6,
}
use amazon_ecs_cni_plugins.IpStore.Allocate.{
  available_loop, get_available_ip, available_loop_v6, get_available_ipv6, release_v4_of,
  release_v6_of, release_by_id,
}
use amazon_ecs_cni_plugins.IpStore.Leases.{Leasing, Freeing, same}
use amazon_ecs_cni_plugins.IpStore.Leases.Rules.{Moves, Refines, Moves-continue, Refines-then}
use amazon_ecs_cni_plugins.IpStore.Leases.Operations.{
  not_ipv4_key, assign-Refines, assign_ipv6-Refines, release-Refines, release_ipv6-Refines,
}

module _ (S : Store) (L : IsLawful S) where
  available_loop-Refines :
      (fuel : ℕ) (id : Text) (last : Ip) → Refines S L Leasing (available_loop S fuel id last)
  unfolding available_loop
  available_loop-Refines zero id last m = same
  available_loop-Refines (suc fuel) id last m = elim (Result-cases (next_ip last m.subnet)) [
    | inr (e, q) ↦ rw (q, available_loop) same
    | inl (n, step) ↦
        let first : Moves S L Leasing m (assign S (show_ip n) id m).1 =
          assign-Refines S L (show_ip n) id m in
        elim (Result-cases (assign S (show_ip n) id m).0) [
          | inl (u, q) ↦
              subst (λ r. Moves S L Leasing m r.1) (sym (round-free S id last n m step fuel q))
                first
          | inr (e, q) ↦ elim (Bool-cases (is_key_exists e)) [
            | inr failed ↦
                subst (λ r. Moves S L Leasing m r.1)
                  (sym (round-failed S id last n m step fuel e q failed)) first
            | inl taken ↦
                let refused =
                  assign-key_exists S L (show_ip n) id m (q ∙ ap err (is_key_exists-eq e taken)) in
                subst (λ r. Moves S L Leasing m r.1)
                  (sym (round-taken S id last n m step fuel refused))
                  (elim (Bool-cases (equal n m.last_known_ip)) [
                    | inl full ↦ rw full same
                    | inr on ↦ rw on (available_loop-Refines fuel id n m)
                  ])
          ]
        ]
  ]

  pub get_available_ip-Refines :
      (fuel : ℕ) (id : Text) → Refines S L Leasing (get_available_ip S fuel id)
  unfolding get_available_ip
  get_available_ip-Refines fuel id m = available_loop-Refines fuel id m.last_known_ip m

  available_loop_v6-Refines :
      (fuel : ℕ) (id : Text) (subnet : IpNet) (start last : Ip)
      → Refines S L Leasing (available_loop_v6 S fuel id subnet start last)
  unfolding available_loop_v6
  available_loop_v6-Refines zero id subnet start last m = same
  available_loop_v6-Refines (suc fuel) id subnet start last m =
      elim (Result-cases (next_ipv6 last subnet)) [
        | inr (e, q) ↦ rw (q, available_loop_v6) same
        | inl (n, step) ↦
            let key = ip_prefix_v6 ++ show_ip n in
            let first : Moves S L Leasing m (assign_ipv6 S key id m).1 =
              assign_ipv6-Refines S L key id (not_ipv4_key (show_ip n)) m in
            elim (Result-cases (assign_ipv6 S key id m).0) [
              | inl (u, q) ↦
                  subst (λ r. Moves S L Leasing m r.1)
                    (sym (round_v6-free S id subnet start last n m step fuel q)) first
              | inr (e, q) ↦ elim (Bool-cases (is_key_exists e)) [
                | inr failed ↦
                    subst (λ r. Moves S L Leasing m r.1)
                      (sym (round_v6-failed S id subnet start last n m step fuel e q failed)) first
                | inl taken ↦
                    let refused =
                      assign_ipv6-key_exists S L key id m (q ∙ ap err (is_key_exists-eq e taken)) in
                    subst (λ r. Moves S L Leasing m r.1)
                      (sym (round_v6-taken S id subnet start last n m step fuel refused))
                      (elim (Bool-cases (equal n start)) [
                        | inl full ↦ rw full same
                        | inr on ↦ rw on (available_loop_v6-Refines fuel id subnet start n m)
                      ])
              ]
            ]
      ]

  pub get_available_ipv6-Refines :
      (fuel : ℕ) (id : Text) → Refines S L Leasing (get_available_ipv6 S fuel id)
  unfolding get_available_ipv6
  get_available_ipv6-Refines fuel id m = elim (Option-cases m.subnet_v6) [
    | inl e ↦
        subst (λ r. Moves S L Leasing m r.1) (sym (get_available_ipv6-none S fuel id m e)) same
    | inr (subnet, e) ↦
        let start = if is_nil m.last_known_ipv6 then masked16 subnet else m.last_known_ipv6 in
        subst (λ r. Moves S L Leasing m r.1) (sym (get_available_ipv6-some S fuel id m subnet e))
          (available_loop_v6-Refines fuel id subnet start start m)
  ]

  release_v4_of-Refines : (id : Text) → Refines S L Freeing (release_v4_of S id)
  unfolding release_v4_of
  release_v4_of-Refines id m = elim (Result-cases (S.list m.client ip_prefix)) [
    | inr (e, q) ↦ elim (Bool-cases (is_key_not_found e)) [
      | inl k ↦ rw (q, release_v4_of, k) same
      | inr k ↦ rw (q, release_v4_of, k) same
    ]
    | inl (kvs, q) ↦ elim (Option-cases (find_key id kvs)) [
      | inl f ↦ rw (q, release_v4_of, f) same
      | inr (key, f) ↦
          rw (q, release_v4_of, f)
            (Moves-continue S L Freeing m (release S key m) (λ _ m'. (ok key, m'))
              (release-Refines S L key m) (λ _ n. same))
    ]
  ]

  release_v6_of-Refines : (id : Text) → Refines S L Freeing (release_v6_of S id)
  unfolding release_v6_of
  release_v6_of-Refines id m = elim (Result-cases (S.list m.client ip_prefix_v6)) [
    | inr (e, q) ↦ elim (Bool-cases (is_key_not_found e)) [
      | inl k ↦ rw (q, release_v6_of, k) same
      | inr k ↦ rw (q, release_v6_of, k) same
    ]
    | inl (kvs, q) ↦ elim (Option-cases (find_key id kvs)) [
      | inl f ↦ rw (q, release_v6_of, f) same
      | inr (key, f) ↦
          rw (q, release_v6_of, f)
            (Moves-continue S L Freeing m (release_ipv6 S key m)
              (λ _ m'. (ok (drop (length ip_prefix_v6) key), m')) (release_ipv6-Refines S L key m)
              (λ _ n. same))
    ]
  ]

  pub release_by_id-Refines : (id : Text) → Refines S L Freeing (release_by_id S id)
  unfolding release_by_id
  release_by_id-Refines id =
      Refines-then S L Freeing (release_v4_of S id) _ (release_v4_of-Refines id) λ v4.
        Refines-then S L Freeing (release_v6_of S id) _ (release_v6_of-Refines id) λ v6 m.
          elim (Bool-cases (text_eq v4 [] && text_eq v6 [])) [
            | inl n ↦ rw n same
            | inr n ↦ rw n same
          ]
