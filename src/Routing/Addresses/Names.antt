-- ===== src/Routing/Addresses/Names.antt =====
-- modules/routing/CallRouterApi.js: the names that `parseAddress` reads.
use arnacon_webrtc_service.Shared.{
  ℕ, ◌≡◌, refl, ap, ◌∙◌, Bool, true, false, ◌&&◌, ◌||◌, not, none, some, [], ◌∷◌, ◌++◌,
  if◌then◌else◌, leb, ◌==◌, Text, text, text_eq, text_eq_refl, text_neq, trim, all, all-append,
  length, length-append, &&_left, &&_right, arith,
}
use arnacon_webrtc_service.Routing.Addresses.{
  ens, is_empty, is_digit, is_raw, is_raw_email, has_email_form, raw, email, before_suffix,
  has_line_end, has_suffix, at_last_dot, labels, ens_of, parts_of, parse_trimmed, parse_address,
}

abbrev pub no_dot : Text → Bool
no_dot t = all (λ c. not (c == b'.')) t

longer : (c : ℕ) (v s : Text) → text_eq (c ∷ v ++ s) s ≡ false
longer c v s =
    text_neq (c ∷ v ++ s) s
      (λ e. absurd (let n = length-append v s in let m = ap length e in omega (arith, n, m)))

before_suffix-append : (s u : Text) → before_suffix s (u ++ s) ≡ some u
unfolding before_suffix
before_suffix-append [] [] = refl
before_suffix-append (d ∷ s) [] = rw (text_eq_refl (d ∷ s))
before_suffix-append s (c ∷ v) = rw (longer c v s, before_suffix-append s v)

at_last_dot-none : (t : Text) → no_dot t ≡ true → at_last_dot t ≡ none
unfolding at_last_dot
at_last_dot-none [] h = refl
at_last_dot-none (c ∷ t) h = rw (
  at_last_dot-none t (&&_right (not (c == b'.')) (no_dot t) h),
  no_match c (&&_left (not (c == b'.')) (no_dot t) h),
)
  where
    no_match : (c : ℕ) → not (c == b'.') ≡ true → (c == b'.') ≡ false
    no_match c h = ground arith

at_last_dot-append :
    (name label : Text)
    → no_dot label ≡ true
    → at_last_dot (name ++ b'.' ∷ label) ≡ some (name, label)
unfolding at_last_dot
at_last_dot-append [] label h = rw (at_last_dot-none label h)
at_last_dot-append (c ∷ t) label h = rw (at_last_dot-append t label h)

-- A number holds no dot after its first code unit.
dot-no_number : (t label rest : Text) → all is_digit (t ++ b'.' ∷ label ++ rest) ≡ false
dot-no_number t label rest =
    all-append is_digit (t ++ b'.' ∷ label) rest
    ∙ ap (λ b. b && all is_digit rest) (all-append is_digit t (b'.' ∷ label))
    ∙ never (all is_digit t) (all is_digit rest)
  where
    never : (a c : Bool) → ((a && false) && c) ≡ false
    never a c = ground arith

not_raw :
    (name label : Text)
    → is_empty name ≡ false
    → is_raw (name ++ b'.' ∷ label ++ text ".global") ≡ false
unfolding is_raw
not_raw [] label h = ground arith
not_raw (c ∷ t) label h =
    ap
      (λ b.
        (is_digit c || (c == b'*' || c == b'+'))
        && (b && leb (length (t ++ b'.' ∷ label ++ text ".global")) 20))
      (dot-no_number t label (text ".global"))
    ∙ never (is_digit c || (c == b'*' || c == b'+'))
  where
    never : (a : Bool) → (a && false) ≡ false
    never a = ground arith

not_email : (t : Text) → is_raw_email (t ++ text ".global") ≡ false
unfolding is_raw_email
not_email t =
    ap (λ o. has_email_form (t ++ text ".global") && not (has_suffix o))
      (before_suffix-append (text ".global") t)
    ∙ never (has_email_form (t ++ text ".global"))
  where
    never : (a : Bool) → (a && false) ≡ false
    never a = ground arith

labels-lem :
    (name label : Text)
    → is_empty name ≡ false
    → is_empty label ≡ false
    → has_line_end name ≡ false
    → labels (some (name, label)) ≡ some (name, label)
unfolding labels
labels-lem name label h k l = rw (h, k, l)

parse_trimmed-ens :
    (name label : Text)
    → is_empty name ≡ false
    → is_empty label ≡ false
    → no_dot label ≡ true
    → has_line_end name ≡ false
    → parse_trimmed (name ++ b'.' ∷ label ++ text ".global")
      ≡ ens name (label ++ text ".global") (name ++ b'.' ∷ label ++ text ".global")
unfolding parse_trimmed parts_of
parse_trimmed-ens name label h k plain line =
    let head = name ++ b'.' ∷ label in
    let a = head ++ text ".global" in
    ap
      (λ b.
        if b
        then raw a
        else if is_raw_email a
        then email a
        else ens_of a (parts_of (before_suffix (text ".global") a)))
      (not_raw name label h)
    ∙ ap (λ b. if b then email a else ens_of a (parts_of (before_suffix (text ".global") a)))
        (not_email head)
    ∙ ap (λ o. ens_of a (parts_of o)) (before_suffix-append (text ".global") head)
    ∙ ap (λ o. ens_of a (labels o)) (at_last_dot-append name label plain)
    ∙ ap (ens_of a) (labels-lem name label h k line)

-- The name and the domain of an address of the form `name.label.global` are read back from it, where the
-- name is not empty and has no line end, the label is not empty and has no dot, and `trim` leaves the address as it is.
pub parse_address-ens :
    (name label : Text)
    → is_empty name ≡ false
    → is_empty label ≡ false
    → no_dot label ≡ true
    → has_line_end name ≡ false
    → trim (name ++ b'.' ∷ label ++ text ".global") ≡ name ++ b'.' ∷ label ++ text ".global"
    → parse_address (name ++ b'.' ∷ label ++ text ".global")
      ≡ ens name (label ++ text ".global") (name ++ b'.' ∷ label ++ text ".global")
unfolding parse_address
parse_address-ens name label h k plain line trimmed = of_name name h line trimmed
  where
    of_name :
        (n : Text)
        → is_empty n ≡ false
        → has_line_end n ≡ false
        → trim (n ++ b'.' ∷ label ++ text ".global") ≡ n ++ b'.' ∷ label ++ text ".global"
        → parse_address (n ++ b'.' ∷ label ++ text ".global")
          ≡ ens n (label ++ text ".global") (n ++ b'.' ∷ label ++ text ".global")
    of_name [] empty l same = ground arith
    of_name (c ∷ t) full l same =
        ap parse_trimmed same ∙ parse_trimmed-ens (c ∷ t) label full k plain l
