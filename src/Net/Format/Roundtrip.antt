-- ===== src/Net/Format/Roundtrip.antt =====
-- net.ParseIP of a text that IP.String writes, for IPv4 addresses.
use amazon_ecs_cni_plugins.Base.{
  ℕ, ◌+◌, ◌*◌, ◌/◌, ◌%◌, ◌^◌, ◌<◌, ◌≡◌, refl, ◌∙◌, ap, arith, ◌==◌, ==_iff, Bool, true, false, ◌&&◌,
  ◌||◌, not,
}
use amazon_ecs_cni_plugins.Base.{Text, text_eq, Option, none, some, [], ◌∷◌, ◌++◌}
use amazon_ecs_cni_plugins.Base.Bytes.{down_from, down_from-at}
use amazon_ecs_cni_plugins.Net.{nil, v4, v6, to4}
use amazon_ecs_cni_plugins.Net.Ipv4.{to4-mapped}
use amazon_ecs_cni_plugins.Net.Format.{
  byte_text, show_v4, show_ip, split_on, parse_byte, parse_bytes, dotted, parse_v4, has_byte,
  parse_ip,
}

reads : Option ℕ → ℕ → Bool
reads none n = false
reads (some m) n = m == n

-- The text of a byte has neither a dot nor a colon, and reads as the byte.
byte_table :
    down_from
      (λ b.
        reads (parse_byte (byte_text b)) b
        && not (has_byte b'.' (byte_text b))
        && not (has_byte b':' (byte_text b)))
      255
    ≡ true
unfolding down_from reads parse_byte byte_text has_byte text_eq
byte_table = refl

reads-some : (o : Option ℕ) (n : ℕ) → reads o n ≡ true → o ≡ some n
unfolding reads
reads-some none n h = cc
reads-some (some m) n h = ap some ((==_iff m n).0 h)

byte_facts :
    (b : ℕ)
    → b < 256
    → (parse_byte (byte_text b) ≡ some b)
      × (has_byte b'.' (byte_text b) ≡ false)
      × (has_byte b':' (byte_text b) ≡ false)
byte_facts b l =
    let row =
      down_from-at
        (λ x.
          reads (parse_byte (byte_text x)) x
          && not (has_byte b'.' (byte_text x))
          && not (has_byte b':' (byte_text x)))
        255 b (omega arith) byte_table in
    (reads-some (parse_byte (byte_text b)) b (ground arith), ground arith, ground arith)

has_byte-append : (c : ℕ) (s t : Text) → has_byte c (s ++ t) ≡ (has_byte c s || has_byte c t)
unfolding has_byte
has_byte-append c [] t = refl
has_byte-append c (d ∷ s) t = ground (arith, has_byte-append c s t)

split_on-append :
    (sep : ℕ) (w s : Text)
    → has_byte sep w ≡ false
    → split_on sep (w ++ (sep ∷ s)) ≡ w ∷ split_on sep s
unfolding split_on has_byte
split_on-append sep [] s h = ground arith
split_on-append sep (c ∷ w) s h = ground (arith, split_on-append sep w s)

split_on-last : (sep : ℕ) (w : Text) → has_byte sep w ≡ false → split_on sep w ≡ w ∷ []
unfolding split_on has_byte
split_on-last sep [] h = refl
split_on-last sep (c ∷ w) h = ground (arith, split_on-last sep w)

dot-has_colon :
    (s t : Text) → has_byte b':' s ≡ false → has_byte b':' (s ++ (b'.' ∷ t)) ≡ has_byte b':' t
unfolding has_byte
dot-has_colon s t h = ground (arith, has_byte-append b':' s (b'.' ∷ t))

module _ (a b c d : ℕ) (la : a < 256) (lb : b < 256) (lc : c < 256) (ld : d < 256) where
  abbrev dotted_text : Text
  dotted_text =
      byte_text a ++ (b'.' ∷ (byte_text b ++ (b'.' ∷ (byte_text c ++ (b'.' ∷ byte_text d)))))

  parse_v4-dotted_text : parse_v4 dotted_text ≡ some (((a * 256 + b) * 256 + c) * 256 + d)
  unfolding parse_v4
  parse_v4-dotted_text =
      let (pa, da, ca) = byte_facts a la in
      let (pb, db, cb) = byte_facts b lb in
      let (pc, dc, cc') = byte_facts c lc in
      let (pd, dd, cd) = byte_facts d ld in
      ap (λ ws. dotted (parse_bytes ws))
        (split_on-append b'.' (byte_text a) _ da
          ∙ ap (λ ws. byte_text a ∷ ws)
              (split_on-append b'.' (byte_text b) _ db
                ∙ ap (λ ws. byte_text b ∷ ws)
                    (split_on-append b'.' (byte_text c) _ dc
                      ∙ ap (λ ws. byte_text c ∷ ws) (split_on-last b'.' (byte_text d) dd))))
      ∙ rw (pa, pb, pc, pd) refl

  no_colon : has_byte b':' dotted_text ≡ false
  no_colon =
      let (pa, da, ca) = byte_facts a la in
      let (pb, db, cb) = byte_facts b lb in
      let (pc, dc, cc') = byte_facts c lc in
      let (pd, dd, cd) = byte_facts d ld in
      dot-has_colon (byte_text a) _ ca
      ∙ dot-has_colon (byte_text b) _ cb
      ∙ dot-has_colon (byte_text c) _ cc'
      ∙ cd

-- The text of an IPv4 address reads as that address, in sixteen bytes.
pub parse_ip-show_ip : (n : ℕ) → n < 2 ^ 32 → parse_ip (show_ip (v4 n)) ≡ v6 (0xffff * 2 ^ 32 + n)
unfolding show_ip show_v4 to4 parse_ip
parse_ip-show_ip n h =
    let a = n / 2 ^ 24 in
    let b = n / 2 ^ 16 % 256 in
    let c = n / 2 ^ 8 % 256 in
    let d = n % 256 in
    let la : a < 256 = omega arith in
    let lb : b < 256 = omega arith in
    let lc : c < 256 = omega arith in
    let ld : d < 256 = omega arith in
    let value : ((a * 256 + b) * 256 + c) * 256 + d ≡ n = omega arith in
    rw (no_colon a b c d la lb lc ld, parse_v4-dotted_text a b c d la lb lc ld, value) refl

-- The empty text is no address.
pub parse_ip-empty : parse_ip [] ≡ nil
unfolding parse_ip has_byte parse_v4 split_on parse_bytes dotted parse_byte
parse_ip-empty = refl

-- An IPv4 address that was printed and parsed is printed alike.
pub show_ip-parse_ip : (n : ℕ) → n < 2 ^ 32 → show_ip (parse_ip (show_ip (v4 n))) ≡ show_ip (v4 n)
unfolding show_ip
show_ip-parse_ip n h = rw (parse_ip-show_ip n h, show_ip, to4-mapped n h) refl
