-- ===== src/Ipam/Commands/Remember.antt =====
-- The last known address: what ADD and DEL write under its mark, and what the next ADD reads there.
use amazon_ecs_cni_plugins.Base.{
  ℕ, ◌+◌, ◌*◌, ◌^◌, ◌<◌, ◌≡◌, ◌≢◌, refl, ◌∙◌, ap, inl, inr, Result-cases, Text, text_eq_iff, none,
  some, ok, err,
}
use amazon_ecs_cni_plugins.Net.{Ip, v4, v6, to4}
use amazon_ecs_cni_plugins.Net.Ipv4.{to4-mapped}
use amazon_ecs_cni_plugins.Net.Format.{show_ip}
use amazon_ecs_cni_plugins.Net.Format.Roundtrip.{parse_ip-show_ip}
use amazon_ecs_cni_plugins.IpStore.Db.{Store, IsLawful, IsHealthy}
use amazon_ecs_cni_plugins.IpStore.Manager.{IpManager, get}
use amazon_ecs_cni_plugins.IpStore.Manager.Effects.{contents}
use amazon_ecs_cni_plugins.IpStore.Manager.Healthy.{exists-of_some}
use amazon_ecs_cni_plugins.Ipam.Config.{IpamConfig}
use amazon_ecs_cni_plugins.Ipam.Commands.{last_known_ip_key, update_or_warn, start_ipv4}
use amazon_ecs_cni_plugins.Ipam.Commands.Release.{update_or_warn-contents}

module _ (S : Store) (L : IsLawful S) (H : IsHealthy S) where
  -- Get of a key that has a value.
  pub get-of_some : (k v : Text) (m : IpManager S) → contents S L m k ≡ some v → get S k m ≡ ok v
  unfolding get
  get-of_some k v m e = elim (Result-cases (S.get m.client k)) [
    | inl (w, q) ↦
        let found = L.get_ok m.client k w q in let same : w ≡ v = cc in rw (q, get) (ap ok same)
    | inr (x, q) ↦
        let missing = L.get_missing m.client k (q ∙ ap err (H.get_answers m.client k x q)) in cc
  ]

  -- On a lawful store that does not fail, once the text of an IPv4 address is written under the
  -- mark of the last known address, the search for an IPv4 address starts at that address.
  pub start_ipv4-update_or_warn :
      (conf : IpamConfig) (m : IpManager S) (n : ℕ)
      → n < 2 ^ 32
      → (start : Ip) × (start_ipv4 S conf (update_or_warn S last_known_ip_key (show_ip (v4 n)) m)
          ≡ ok start)
        × (to4 start ≡ v4 n)
  unfolding start_ipv4
  start_ipv4-update_or_warn conf m n h =
      let text = show_ip (v4 n) in
      let after = update_or_warn S last_known_ip_key text m in
      let held : contents S L after last_known_ip_key ≡ some text =
        update_or_warn-contents S L H conf m last_known_ip_key text last_known_ip_key m
        ∙ rw ((text_eq_iff last_known_ip_key last_known_ip_key).1 refl) refl in
      let present : contents S L after last_known_ip_key ≢ none = λ gone. cc in
      (
        v6 (0xffff * 2 ^ 32 + n),
        rw
            (
              exists-of_some S L H last_known_ip_key after present,
              start_ipv4,
              get-of_some last_known_ip_key text after held,
              parse_ip-show_ip n h,
            )
            refl,
        to4-mapped n h,
      )
