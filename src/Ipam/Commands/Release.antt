-- ===== src/Ipam/Commands/Release.antt =====
-- DEL of the IPAM plugin for a configuration that names an IPv4 address.
use amazon_ecs_cni_plugins.Base.{
  ◌≡◌, ◌≢◌, ◌∙◌, ap, refl, arith, Text, text_eq, true, false, Option, none, some, [], ok,
  if◌then◌else◌,
}
use amazon_ecs_cni_plugins.Net.Format.{show_ip}
use amazon_ecs_cni_plugins.IpStore.Db.{Store, IsLawful, IsHealthy}
use amazon_ecs_cni_plugins.IpStore.Manager.{IpManager, release, update}
use amazon_ecs_cni_plugins.IpStore.Manager.Effects.{contents, with_key, release-ok, release-taken}
use amazon_ecs_cni_plugins.Ipam.Config.{IpamConfig}
use amazon_ecs_cni_plugins.Ipam.Commands.{
  last_known_ip_key, has_address, update_or_warn, release_addresses, record_released, del,
}

module _ (S : Store) (L : IsLawful S) (H : IsHealthy S) (conf : IpamConfig) (m : IpManager S) where
  abbrev text : Text
  text = show_ip conf.ipv4_address.ip

  abbrev after : IpManager S
  after = (release S text m).1

  pub update_or_warn-contents :
      (key value j : Text) (n : IpManager S)
      → contents S L (update_or_warn S key value n) j
        ≡ with_key S L (contents S L n) key (some value) j
  unfolding update_or_warn update
  update_or_warn-contents key value j n =
      L.put_ok n.client key value j (H.put_answers n.client key value)

  del-named :
      has_address conf.ipv4_address ≡ true
      → has_address conf.ipv6_address ≡ false
      → text_eq text [] ≡ false
      → (del S conf m).0 ≡ ok tt
      → ((release S text m).0 ≡ ok tt)
        × ((del S conf m).1 ≡ update_or_warn S last_known_ip_key text after)
  unfolding del release_addresses record_released text_eq
  del-named four six named done =
      let released : (release S text m).0 ≡ ok tt = ground arith in
      (released, rw (four, six, released, named) refl)

  pub del-answers :
      has_address conf.ipv4_address ≡ true
      → has_address conf.ipv6_address ≡ false
      → (release S text m).0 ≡ ok tt
      → (del S conf m).0 ≡ ok tt
  unfolding del release_addresses
  del-answers four six released = rw (four, six, released) refl

  -- On a lawful store that does not fail, for a configuration that names an IPv4 address with a
  -- text that is not empty and no IPv6 address: if DEL of the IPAM plugin succeeds, the address
  -- had an entry, and after DEL the entry is removed, the last known address is that address, and
  -- all other keys are as before.
  pub del-releases :
      has_address conf.ipv4_address ≡ true
      → has_address conf.ipv6_address ≡ false
      → text_eq (show_ip conf.ipv4_address.ip) [] ≡ false
      → (del S conf m).0 ≡ ok tt
      → (contents S L m (show_ip conf.ipv4_address.ip) ≢ none)
        × ((j : Text)
            → contents S L (del S conf m).1 j
              ≡ with_key S L
                  (with_key S L (contents S L m) (show_ip conf.ipv4_address.ip) none)
                  last_known_ip_key
                  (some (show_ip conf.ipv4_address.ip))
                  j)
  del-releases four six named done =
      let (released, last) = del-named four six named done in
      (
        release-taken S L text m released,
        λ j.
            ap (λ n. contents S L n j) last
            ∙ update_or_warn-contents last_known_ip_key text j after
            ∙ ap (λ (o : Option Text). if text_eq j last_known_ip_key then some text else o)
                (release-ok S L text j m released),
      )
