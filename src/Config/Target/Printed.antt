-- ===== src/Config/Target/Printed.antt =====
-- `Target::parse` undoes the printing of `user@host:port` (src/config.rs).
use openrussh_client.Prelude.{
  ℕ, ◌+◌, ◌-◌, ◌*◌, ◌≤◌, ◌<◌, Text, [], ◌∷◌, ◌++◌, false, ◌&&◌, ◌≢◌, none, some, ltb, ◌==◌,
  if◌then◌else◌, ◌≡◌, refl, ap, arith, All,
}
use openrussh_client.Escape.Number.{
  format_into, value, IsDigit, format_into-value, format_into-digits, format_into-ne-nil,
}
use openrussh_client.Config.Target.{split_once, rsplit_once, is_digit, digits_u16, parse_u16, parse}

-- The byte does not stand in the text.
abbrev pub IsWithout : ℕ → Text → Type 0
IsWithout sep = All (λ x. (x == sep) ≡ false)

split-first : (sep : ℕ) (u r : Text) → IsWithout sep u → split_once sep (u ++ sep ∷ r) ≡ some (u, r)
unfolding split_once
split-first sep [] r h = ground arith
split-first sep (x ∷ u) r (e, h) = rw (e, split-first sep u r h) refl

rsplit-none : (sep : ℕ) (p : Text) → IsWithout sep p → rsplit_once sep p ≡ none
unfolding rsplit_once
rsplit-none sep [] h = refl
rsplit-none sep (x ∷ p) (e, h) = rw (rsplit-none sep p h, e) refl

rsplit-last :
    (sep : ℕ) (h p : Text) → IsWithout sep p → rsplit_once sep (h ++ sep ∷ p) ≡ some (h, p)
unfolding rsplit_once
rsplit-last sep [] p w = rw (rsplit-none sep p w) (ground arith)
rsplit-last sep (x ∷ h) p w = rw (rsplit-last sep h p w) refl

value-above : (n : ℕ) (s : Text) → n ≤ value n s
value-above n [] = omega arith
value-above n (c ∷ s) = omega (arith, value-above (n * 10 + (c - b'0')) s)

digits-value :
    (n : ℕ) (s : Text) → All IsDigit s → value n s < 65536 → digits_u16 n s ≡ some (value n s)
unfolding digits_u16
digits-value n [] h lt = refl
digits-value n (c ∷ s) (d, h) lt =
    rw (digits-value (n * 10 + (c - b'0')) s h lt)
      (small (omega (arith, value-above (n * 10 + (c - b'0')) s)))
  where
    small :
        n * 10 + (c - b'0') < 65536
        → (if is_digit c && ltb (n * 10 + (c - b'0')) 65536 then some (value n (c ∷ s)) else none)
          ≡ some (value n (c ∷ s))
    small lt = ground arith

parse-digits :
    (s : Text) → s ≢ [] → All IsDigit s → value 0 s < 65536 → parse_u16 s ≡ some (value 0 s)
unfolding parse_u16
parse-digits [] ne h lt = absurd (ne refl)
parse-digits (c ∷ []) ne h lt = digits-value 0 (c ∷ []) h lt
parse-digits (c ∷ d ∷ s) ne (e, h) lt = rw (no_sign, digits-value 0 (c ∷ d ∷ s) (e, h) lt) refl
  where
    no_sign : (c == b'+') ≡ false
    no_sign = ground arith

digits-IsWithout : (s : Text) → All IsDigit s → IsWithout b':' s
digits-IsWithout [] h = tt
digits-IsWithout (c ∷ s) (d, h) = (ground arith, digits-IsWithout s h)

-- A target printed as `user@host:port` is parsed again, for a user without `@`, any host and a port in
-- range.
pub parse-printed :
    (user host : Text) (port : ℕ)
    → IsWithout b'@' user
    → port < 65536
    → parse (user ++ b'@' ∷ (host ++ b':' ∷ format_into port))
      ≡ record { host = host; port = some port; user = some user }
unfolding parse
parse-printed user host port w lt =
    rw
      (
        split-first b'@' user (host ++ b':' ∷ format_into port) w,
        rsplit-last b':' host (format_into port)
            (digits-IsWithout (format_into port) (format_into-digits port)),
        port_parsed,
      )
      refl
  where
    port_parsed : parse_u16 (format_into port) ≡ some port
    port_parsed =
        rw
          (parse-digits (format_into port) (format_into-ne-nil port) (format_into-digits port)
            (rw (format_into-value port) lt))
          (ap some (format_into-value port))
