-- ===== src/Users/Email/Pattern.antt =====
-- The test of an e-mail address and the language of its regular expression.
use stocka_server.Prelude.{
  ℕ, ◌≡◌, refl, sym, ap, ◌∙◌, ◌↔◌, inl, inr, Bool, true, false, Bool-cases, ◌&&◌, ◌==◌, ==_iff, [],
  ◌∷◌, ◌++◌, Text, arith, is_space,
}
use stocka_server.Users.Email.{is_plain, all_plain, has_dot, is_domain, after_local, is_email}

-- One `[^\s@]+@[^\s@]+\.[^\s@]+` in three parts, each with its first unit.
pub record Address (s : Text) : Type 0 where
  pub local_first : ℕ
  pub local : Text
  pub host_first : ℕ
  pub host : Text
  pub tld_first : ℕ
  pub tld : Text
  pub local_plain : all_plain (local_first ∷ local) ≡ true
  pub host_plain : all_plain (host_first ∷ host) ≡ true
  pub tld_plain : all_plain (tld_first ∷ tld) ≡ true
  pub parts : s ≡ (local_first ∷ local) ++ b'@' ∷ ((host_first ∷ host) ++ b'.' ∷ tld_first ∷ tld)

all_plain-append : (s t : Text) → all_plain (s ++ t) ≡ (all_plain s && all_plain t)
unfolding all_plain
all_plain-append [] t = refl
all_plain-append (c ∷ s) t = ground (arith, all_plain-append s t)

-- The dot that the test found.
record Dot (s : Text) : Type 0 where
  before : Text
  first : ℕ
  after : Text
  parts : s ≡ before ++ b'.' ∷ first ∷ after

has_dot-Dot : (s : Text) → has_dot s ≡ true → Dot s
unfolding has_dot
has_dot-Dot [] h = cc
has_dot-Dot (c ∷ []) h = cc
has_dot-Dot (c ∷ d ∷ s) h = elim (Bool-cases (c == b'.')) [
  | inl e ↦ record {
    before = [];
    first = d;
    after = s;
    parts = ap (λ c. c ∷ d ∷ s) ((==_iff c b'.').0 e);
  }
  | inr e ↦
      let rest = has_dot-Dot (d ∷ s) (rw e at h) in
      record {
        before = c ∷ rest.before;
        first = rest.first;
        after = rest.after;
        parts = ap (λ t. c ∷ t) rest.parts;
      }
]

Dot-has_dot : (s : Text) (d : ℕ) (t : Text) → has_dot (s ++ b'.' ∷ d ∷ t) ≡ true
unfolding has_dot
Dot-has_dot [] d t = refl
Dot-has_dot (c ∷ []) d t = ground (arith, Dot-has_dot [] d t)
Dot-has_dot (c ∷ e ∷ s) d t = ground (arith, Dot-has_dot (e ∷ s) d t)

both : (a b : Bool) → (a && b) ≡ true → (a ≡ true) × (b ≡ true)
both true b h = (refl, h)
both false b h = cc

-- The `@` that the test found.
record At (s : Text) : Type 0 where
  before : Text
  domain : Text
  plain : all_plain before ≡ true
  domain_ok : is_domain domain ≡ true
  parts : s ≡ before ++ b'@' ∷ domain

after_local-At : (s : Text) → after_local s ≡ true → At s
unfolding after_local all_plain
after_local-At [] h = cc
after_local-At (c ∷ s) h = elim (Bool-cases (c == b'@')) [
  | inl e ↦ record {
    before = [];
    domain = s;
    plain = refl;
    domain_ok = rw e at h;
    parts = ap (λ c. c ∷ s) ((==_iff c b'@').0 e);
  }
  | inr e ↦
      let (p, h') = both (is_plain c) (after_local s) (rw e at h) in
      let rest = after_local-At s h' in
      record {
        before = c ∷ rest.before;
        domain = rest.domain;
        plain = rw (p, rest.plain) refl;
        domain_ok = rest.domain_ok;
        parts = ap (λ t. c ∷ t) rest.parts;
      }
]

plain_cons : (c : ℕ) (s : Text) → is_plain c ≡ true → all_plain s ≡ true → all_plain (c ∷ s) ≡ true
unfolding all_plain
plain_cons c s h k = rw (h, k)

plain-ne-at : (c : ℕ) → is_plain c ≡ true → (c == b'@') ≡ false
unfolding is_plain
plain-ne-at c h = ground arith

At-after_local :
    (s domain : Text) → all_plain s ≡ true → after_local (s ++ b'@' ∷ domain) ≡ is_domain domain
unfolding after_local all_plain
At-after_local [] domain h = refl
At-after_local (c ∷ s) domain h = elim (Bool-cases (is_plain c)) [
  | inl p ↦ rw (plain-ne-at c p) (rw p (At-after_local s domain (rw p at h)))
  | inr p ↦ cc (rw p at h)
]

dot_plain : is_plain b'.' ≡ true
unfolding is_plain is_space
dot_plain = refl

first_of_plain : (c : ℕ) (s : Text) → all_plain (c ∷ s) ≡ true → is_plain c ≡ true
unfolding all_plain
first_of_plain c s h = ground arith

rest_of_plain : (c : ℕ) (s : Text) → all_plain (c ∷ s) ≡ true → all_plain s ≡ true
unfolding all_plain
rest_of_plain c s h = ground arith

plain_parts : (s t : Text) → all_plain (s ++ t) ≡ true → (all_plain s ≡ true) × (all_plain t ≡ true)
plain_parts s t h = ground (arith, all_plain-append s t)

domain_of :
    (c : ℕ) (s : Text) → is_domain (c ∷ s) ≡ true → (all_plain (c ∷ s) ≡ true) × (has_dot s ≡ true)
domain_of c s h = ground arith

record Host (d : Text) : Type 0 where
  host_first : ℕ
  host : Text
  tld_first : ℕ
  tld : Text
  host_plain : all_plain (host_first ∷ host) ≡ true
  tld_plain : all_plain (tld_first ∷ tld) ≡ true
  parts : d ≡ (host_first ∷ host) ++ b'.' ∷ tld_first ∷ tld

is_domain-Host : (d : Text) → is_domain d ≡ true → Host d
is_domain-Host [] h = cc
is_domain-Host (c ∷ s) h =
    let (p, q) = domain_of c s h in
    let dot = has_dot-Dot s q in
    let same : c ∷ s ≡ (c ∷ dot.before) ++ b'.' ∷ dot.first ∷ dot.after =
      ap (λ t. c ∷ t) dot.parts in
    let (u, v) =
      plain_parts (c ∷ dot.before) (b'.' ∷ dot.first ∷ dot.after) (ap all_plain (sym same) ∙ p) in
    record {
      host_first = c;
      host = dot.before;
      tld_first = dot.first;
      tld = dot.after;
      host_plain = u;
      tld_plain = rest_of_plain b'.' (dot.first ∷ dot.after) v;
      parts = same;
    }

Host-is_domain : (d : Text) → Host d → is_domain d ≡ true
unfolding all_plain
Host-is_domain d h = rw h.parts (
    rw (Dot-has_dot h.host h.tld_first h.tld) (
      rw (all_plain-append h.host (b'.' ∷ h.tld_first ∷ h.tld))
        (ground (arith, dot_plain, h.host_plain, h.tld_plain))))

is_email-parts : (s : Text) → is_email s ≡ true → Address s
unfolding is_email
is_email-parts [] h = cc
is_email-parts (c ∷ s) h =
    let (p, q) = both (is_plain c) (after_local s) h in
    let at = after_local-At s q in
    let host = is_domain-Host at.domain at.domain_ok in
    record {
      local_first = c;
      local = at.before;
      host_first = host.host_first;
      host = host.host;
      tld_first = host.tld_first;
      tld = host.tld;
      local_plain = plain_cons c at.before p at.plain;
      host_plain = host.host_plain;
      tld_plain = host.tld_plain;
      parts = ap (λ t. c ∷ t) (at.parts ∙ ap (λ d. at.before ++ b'@' ∷ d) host.parts);
    }

parts-is_email : (s : Text) → Address s → is_email s ≡ true
unfolding is_email
parts-is_email s a =
    let domain = (a.host_first ∷ a.host) ++ b'.' ∷ a.tld_first ∷ a.tld in
    rw a.parts (
      rw (first_of_plain a.local_first a.local a.local_plain) (
        At-after_local a.local domain (rest_of_plain a.local_first a.local a.local_plain)
        ∙ Host-is_domain domain (record {
          host_first = a.host_first;
          host = a.host;
          tld_first = a.tld_first;
          tld = a.tld;
          host_plain = a.host_plain;
          tld_plain = a.tld_plain;
          parts = refl;
        })))

-- A text is taken for an e-mail address exactly when it is three plain parts that are not empty,
-- `local@host.tld`, where a unit is plain if it is neither white space nor an `@`.
pub is_email-Address : (s : Text) → (is_email s ≡ true) ↔ Address s
is_email-Address s = (is_email-parts s, parts-is_email s)
