-- ===== src/TelOpts/CharsetChoice.antt =====
-- telopts/CHARSET.go: what is chosen among the names of a request.
use telnet.Prelude.{
  ℕ, ◌≡◌, refl, sym, ◌∙◌, subst, Bool, true, ◌&&◌, ◌||◌, List, [], ◌∷◌, Bytes, same_bytes,
  same_bytes_iff, text, arith, Bool-cases, inl, inr,
}
use telnet.Charset.{IanaEncoding, promote_default_charset}
use telnet.TelOpts.CharsetOption.{
  CharsetOption, is_listed, is_known, is_acceptable_charset, promote, choose,
}

and_left : (b c : Bool) → b && c ≡ true → b ≡ true
and_left b c e = ground arith

pub or_right : (b c : Bool) → c ≡ true → b || c ≡ true
or_right b c e = ground arith

-- What the choice among the names leaves.
pub record Untouched (o p : CharsetOption) : Type 0 where
  pub same_server : p.server ≡ o.server
  pub same_lock : p.locked ≡ o.locked
  pub same_sent : p.sent ≡ o.sent

module _ (lower : Bytes → Bytes) (iana : Bytes → IanaEncoding) where
  promote-Untouched : (name : Bytes) (o : CharsetOption) → Untouched o (promote lower iana name o)
  unfolding promote
  promote-Untouched name o = elim (Bool-cases (same_bytes name (text "UTF-8"))) [
    | inl utf_8 ↦
        elim (Bool-cases
          (promote_default_charset lower iana (text "US-ASCII") (text "UTF-8") o.charset).1) [
            | inl changed ↦
                rw (utf_8, changed, promote)
                  (record { same_server = refl; same_lock = refl; same_sent = refl })
            | inr kept ↦
                rw (utf_8, kept, promote)
                  (record { same_server = refl; same_lock = refl; same_sent = refl })
          ]
    | inr other ↦
        rw (other, promote) (record { same_server = refl; same_lock = refl; same_sent = refl })
  ]

  pub choose-Untouched :
      (names : List Bytes) (o : CharsetOption) → Untouched o (choose lower iana names o).0
  unfolding choose
  choose-Untouched [] o = record { same_server = refl; same_lock = refl; same_sent = refl }
  choose-Untouched (name ∷ names) o =
      let p : Untouched o (promote lower iana name o) = promote-Untouched name o in
      let r : Untouched (promote lower iana name o)
          (choose lower iana names (promote lower iana name o)).0 =
        choose-Untouched names (promote lower iana name o) in
      elim (Bool-cases (is_acceptable_charset lower iana name (promote lower iana name o))) [
        | inl yes_it ↦ rw (yes_it, choose) p
        | inr not_it ↦
            rw (not_it, choose)
              (record {
                same_server = r.same_server ∙ p.same_server;
                same_lock = r.same_lock ∙ p.same_lock;
                same_sent = r.same_sent ∙ p.same_sent;
              })
      ]

  known_if :
      (name : Bytes) (o : CharsetOption)
      → is_acceptable_charset lower iana name o ≡ true
      → is_known lower iana name ≡ true
  unfolding is_acceptable_charset
  known_if name o e =
      and_left (is_known lower iana name)
        (o.allow_any_charset || is_listed name o.preferred_charsets) e

  -- What is chosen is known and stands in the list.
  pub choose-listed :
      (names : List Bytes) (o : CharsetOption) (x : ℕ) (xs : Bytes)
      → (choose lower iana names o).1 ≡ x ∷ xs
      → (is_known lower iana (x ∷ xs) ≡ true) × (is_listed (x ∷ xs) names ≡ true)
  unfolding choose is_listed
  choose-listed [] o x xs e = absurd (ground arith)
  choose-listed (name ∷ names) o x xs e =
      elim (Bool-cases (is_acceptable_charset lower iana name (promote lower iana name o))) [
        | inl yes_it ↦
            let it : name ≡ x ∷ xs = rw (yes_it, choose) at e in
            let itself : same_bytes (x ∷ xs) name ≡ true =
              ((same_bytes_iff (x ∷ xs) name).1 (sym it)) in
            (
              subst (λ n. is_known lower iana n ≡ true) it
                  (known_if name (promote lower iana name o) yes_it),
              rw (itself, is_listed) refl,
            )
        | inr not_it ↦
            let rest : (choose lower iana names (promote lower iana name o)).1 ≡ x ∷ xs =
              rw (not_it, choose) at e in
            let r : (is_known lower iana (x ∷ xs) ≡ true) × (is_listed (x ∷ xs) names ≡ true) =
              choose-listed names (promote lower iana name o) x xs rest in
            (r.0, or_right (same_bytes (x ∷ xs) name) (is_listed (x ∷ xs) names) r.1)
      ]
