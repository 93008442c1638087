-- ===== src/Flights/Same.antt =====
-- `_same` of src/marshall/atc/flights.py compares what is left of a name when its spaces and capitals
-- are gone, so it tells people apart the way an equality does.
use marshall.Prelude.{
  String, ◌≡◌, refl, ap, ◌∙◌, Bool, true, false, not, ◌||◌, List, [], ◌∷◌, ◌++◌, ◌==◌, any, keep,
  lower, strip, arith, eq_iff, eq_refl, eq_comm,
}
use marshall.Flights.{same, Flight, has, with_member, without_member}

abbrev plain : String → String
plain a = lower (strip a)

same-plain : (a b : String) → same a b ≡ true → plain a ≡ plain b
unfolding same
same-plain a b h = (eq_iff (plain a) (plain b)).0 h

pub same_refl : (a : String) → same a a ≡ true
unfolding same
same_refl a = eq_refl (plain a)

pub same_comm : (a b : String) → same a b ≡ same b a
unfolding same
same_comm a b = eq_comm (plain a) (plain b)

pub same_subst : (a b c : String) → same a b ≡ true → same a c ≡ same b c
unfolding same
same_subst a b c h = ap (λ w. w == plain c) (same-plain a b h)

pub same_trans : (a b c : String) → same a b ≡ true → same b c ≡ true → same a c ≡ true
same_trans a b c h k = same_subst a b c h ∙ k

any-same :
    (a b : String) (ms : List String)
    → same a b ≡ true
    → any (λ m. same a m) ms ≡ any (λ m. same b m) ms
any-same a b [] h = refl
any-same a b (m ∷ ms) h = rw (same_subst a b m h, any-same a b ms h) refl

-- A flight has a person under each of the spellings of his name, or under none.
pub has-same : (f : Flight) (a b : String) → same a b ≡ true → has f a ≡ has f b
unfolding has
has-same f a b h = rw (same_subst a b f.lead h, any-same a b f.members h) refl

any-append :
    (test : String → Bool) (ms : List String) (m : String)
    → any test (ms ++ m ∷ []) ≡ (any test ms || test m)
any-append test [] m = ground arith
any-append test (n ∷ ms) m = ground (arith, any-append test ms m)

pub has-with_member :
    (handle : String) (f : Flight) (who : String)
    → has (with_member handle f) who ≡ (has f who || same who handle)
unfolding has
has-with_member handle f who = rw (any-append (λ m. same who m) f.members handle) (ground arith)

any-keep :
    (test stay : String → Bool) (ms : List String)
    → any test (keep stay ms) ≡ true
    → any test ms ≡ true
any-keep test stay [] h = h
any-keep test stay (m ∷ ms) h = ground (arith, any-keep test stay ms)

pub has-without_member :
    (handle : String) (f : Flight) (who : String)
    → has (without_member handle f) who ≡ true
    → has f who ≡ true
unfolding has
has-without_member handle f who h =
    ground (arith, any-keep (λ m. same who m) (λ m. not (same m handle)) f.members)

any-keep_self :
    (handle : String) (ms : List String)
    → any (λ m. same handle m) (keep (λ m. not (same m handle)) ms) ≡ false
any-keep_self handle [] = refl
any-keep_self handle (m ∷ ms) = ground (arith, any-keep_self handle ms, same_comm handle m)

-- Who is struck off is out, unless he leads.
pub has-without_member_self :
    (handle : String) (f : Flight)
    → same f.lead handle ≡ false
    → has (without_member handle f) handle ≡ false
unfolding has
has-without_member_self handle f h =
    rw (same_comm handle f.lead, h, any-keep_self handle f.members) refl
