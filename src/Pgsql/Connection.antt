-- ===== src/Pgsql/Connection.antt =====
-- PostgreSQL/PgSQLSession.cpp, `open`: what the connection string keeps of its parts.
pub mod Arguments
use lite_database.Common.{
  ℕ, ◌≡◌, refl, ap, sym, ◌∙◌, ◌≢◌, Bool, true, false, Option, none, some, [], ◌∷◌, ◌++◌,
  append_assoc, append-nil, arith, Bytes, codes, if◌then◌else◌, ℤ, pos, negsuc, in_signed, IsSigned,
  Lacks,
}
use lite_database.Outcome.{ok}
use lite_database.Exception.{append_stream}
use lite_database.Std.Decimal.{print_ℤ}
use lite_database.Std.Convert.{string_to_int, string_to_int-print_ℤ}
use lite_database.Types.Letters.{print_ℤ-Lacks}
use lite_database.Std.Stream.{is_nil}
use lite_database.Pgsql.Info.{base_info, print_bool}

-- What is added for an `sslmode` that is not `disable`.
pub record Ssl : Type 0 where
  pub key : Bytes
  pub cert : Bytes
  pub rootcert : Bytes
  pub crl : Bytes
  pub compression : Bool

-- The parts of a connection string.
pub record Parts : Type 0 where
  pub host : Bytes
  pub port : ℤ
  pub user : Bytes
  pub passwd : Bytes
  pub timeout : ℤ
  pub sslmode : Bytes
  pub dbname : Bytes
  pub ssl : Option Ssl

abbrev base : Parts → Bytes
base c = base_info c.host c.port c.user c.passwd c.timeout c.sslmode c.dbname

abbrev pub ssl_text : Option Ssl → Bytes
ssl_text none = []
ssl_text (some s) = append_stream (
    codes " sslkey="
    ∷ s.key
    ∷ codes " sslcert='"
    ∷ s.cert
    ∷ codes "' sslrootcert='"
    ∷ s.rootcert
    ∷ codes "' sslcrl='"
    ∷ s.crl
    ∷ codes "' sslcompression="
    ∷ print_bool s.compression
    ∷ [])

abbrev pub info : Parts → Bytes
info c = base c ++ ssl_text c.ssl

abbrev pub IsPlainSsl : Option Ssl → Type 0
IsPlainSsl none = Unit
IsPlainSsl (some s) =
    Lacks b' ' s.key × Lacks b'\'' s.cert × Lacks b'\'' s.rootcert × Lacks b'\'' s.crl

-- Without a quote in the quoted parts and without a space in the others; the numbers are ints.
pub record IsPlain (c : Parts) : Type 0 where
  pub host_plain : Lacks b'\'' c.host
  pub user_plain : Lacks b'\'' c.user
  pub passwd_plain : Lacks b'\'' c.passwd
  pub mode_plain : Lacks b' ' c.sslmode
  pub name_plain : Lacks b' ' c.dbname
  pub ssl_plain : IsPlainSsl c.ssl
  pub port_fits : IsSigned 32 c.port
  pub timeout_fits : IsSigned 32 c.timeout

cancel : (p : Bytes) {r s : Bytes} → p ++ r ≡ p ++ s → r ≡ s
cancel [] e = e
cancel (c ∷ p) e = cancel p (cc)

-- What stands before the first `c` and what stands behind it.
cut :
    (c : ℕ) (xs ys : Bytes) {r s : Bytes}
    → Lacks c xs
    → Lacks c ys
    → xs ++ c ∷ r ≡ ys ++ c ∷ s
    → (xs ≡ ys) × (r ≡ s)
cut c [] [] hx hy e = (refl, cc)
cut c [] (y ∷ ys) hx (ne, hy) e = absurd (ne (cc))
cut c (x ∷ xs) [] (ne, hx) hy e = absurd (ne (cc))
cut c (x ∷ xs) (y ∷ ys) {r} {s} (nx, hx) (ny, hy) e =
    let tails : xs ++ c ∷ r ≡ ys ++ c ∷ s = cc in
    let (same, rest) = cut c xs ys hx hy tails in (cc, rest)

lacking : (c : ℕ) (xs ys r : Bytes) → Lacks c xs → xs ≢ ys ++ c ∷ r
lacking c [] [] r h e = cc
lacking c [] (y ∷ ys) r h e = cc
lacking c (x ∷ xs) [] r (ne, h) e = ne (cc)
lacking c (x ∷ xs) (y ∷ ys) r (ne, h) e = lacking c xs ys r h (cc)

signed_test : (z : ℤ) → IsSigned 32 z → in_signed 32 z ≡ true
signed_test (pos n) h = ground arith
signed_test (negsuc n) h = ground arith

read_back : (z : ℤ) → IsSigned 32 z → string_to_int 32 (print_ℤ z) ≡ ok z
read_back z h = string_to_int-print_ℤ 32 z ∙ rw (signed_test z h) refl

print_ℤ_injective : (a b : ℤ) → IsSigned 32 a → IsSigned 32 b → print_ℤ a ≡ print_ℤ b → a ≡ b
print_ℤ_injective a b ha hb e =
    let same : ok a ≡ ok b = sym (read_back a ha) ∙ (ap (string_to_int 32) e ∙ read_back b hb) in cc

-- Nothing, or a text that begins with a space.
abbrev Spaced : Bytes → Type 0
Spaced [] = Unit
Spaced (c ∷ s) = c ≡ b' '

-- A part without a space ends where the rest begins.
space_cut :
    (m n t u : Bytes)
    → Lacks b' ' m
    → Lacks b' ' n
    → Spaced t
    → Spaced u
    → m ++ t ≡ n ++ u
    → (m ≡ n) × (t ≡ u)
space_cut m n [] [] hm hn ht hu e = (sym (append-nil m) ∙ (e ∙ append-nil n), refl)
space_cut m n [] (c ∷ u) hm hn ht hu e =
    absurd (lacking b' ' m n u hm (sym (append-nil m) ∙ (e ∙ ap (λ x. n ++ x ∷ u) hu)))
space_cut m n (c ∷ t) [] hm hn ht hu e =
    absurd (lacking b' ' n m t hn (sym (append-nil n) ∙ (sym e ∙ ap (λ x. m ++ x ∷ t) ht)))
space_cut m n (c ∷ t) (d ∷ u) hm hn ht hu e =
    let (same, rest) =
      cut b' ' m n hm hn (sym (ap (λ x. m ++ x ∷ t) ht) ∙ (e ∙ ap (λ x. n ++ x ∷ u) hu)) in
    (same, ap (λ x. x ∷ t) ht ∙ (ap (λ r. b' ' ∷ r) rest ∙ ap (λ x. x ∷ u) (sym hu)))

ssl_text-Spaced : (o : Option Ssl) → Spaced (ssl_text o)
unfolding append_stream
ssl_text-Spaced none = tt
ssl_text-Spaced (some s) = refl

abbrev first : Bytes → ℕ
first [] = 0
first (c ∷ s) = c

abbrev second : Bytes → ℕ
second [] = 0
second (c ∷ s) = first s

print_bool_injective : (a b : Bool) → print_bool a ++ [] ≡ print_bool b ++ [] → a ≡ b
print_bool_injective true true e = refl
print_bool_injective false false e = refl
print_bool_injective true false e = absurd (omega (arith, ap first e))
print_bool_injective false true e = absurd (omega (arith, ap first e))

ssl_text_injective :
    (o p : Option Ssl) → IsPlainSsl o → IsPlainSsl p → ssl_text o ≡ ssl_text p → o ≡ p
unfolding append_stream
ssl_text_injective none none ho hp e = refl
ssl_text_injective none (some t) ho hp e = absurd (cc)
ssl_text_injective (some s) none ho hp e = absurd (cc)
ssl_text_injective (some s) (some t) (hk, hc, hr, hl) (hk', hc', hr', hl') e =
    let (key, e₁) = cut b' ' s.key t.key hk hk' (cancel (codes " sslkey=") e) in
    let (cert, e₂) = cut b'\'' s.cert t.cert hc hc' (cancel (codes "sslcert='") e₁) in
    let (root, e₃) = cut b'\'' s.rootcert t.rootcert hr hr' (cancel (codes " sslrootcert='") e₂) in
    let (crl, e₄) = cut b'\'' s.crl t.crl hl hl' (cancel (codes " sslcrl='") e₃) in
    let same =
      print_bool_injective s.compression t.compression (cancel (codes " sslcompression=") e₄) in
    λ i.
      some (record {
        key = key i;
        cert = cert i;
        rootcert = root i;
        crl = crl i;
        compression = same i;
      })

-- What stands behind the mode.
abbrev behind_mode : Bytes → Option Ssl → Bytes
behind_mode d o = (if is_nil d then [] else codes " dbname=" ++ d) ++ ssl_text o

behind_mode-Spaced : (d : Bytes) (o : Option Ssl) → Spaced (behind_mode d o)
behind_mode-Spaced [] o = ssl_text-Spaced o
behind_mode-Spaced (c ∷ d) o = refl

name_or_ssl : (o : Option Ssl) (t : Bytes) → ssl_text o ≢ codes " dbname=" ++ t
unfolding append_stream
name_or_ssl none t e = omega (arith, ap first e)
name_or_ssl (some s) t e = omega (arith, ap second e)

behind_mode_injective :
    (d e : Bytes) (o p : Option Ssl)
    → Lacks b' ' d
    → Lacks b' ' e
    → IsPlainSsl o
    → IsPlainSsl p
    → behind_mode d o ≡ behind_mode e p
    → (d ≡ e) × (o ≡ p)
behind_mode_injective [] [] o p hd he ho hp h = (refl, ssl_text_injective o p ho hp h)
behind_mode_injective [] (b ∷ e) o p hd he ho hp h =
    absurd (name_or_ssl o ((b ∷ e) ++ ssl_text p) h)
behind_mode_injective (c ∷ d) [] o p hd he ho hp h =
    absurd (name_or_ssl p ((c ∷ d) ++ ssl_text o) (sym h))
behind_mode_injective (c ∷ d) (b ∷ e) o p hd he ho hp h =
    let (same, rest) =
      space_cut (c ∷ d) (b ∷ e) (ssl_text o) (ssl_text p) hd he (ssl_text-Spaced o)
        (ssl_text-Spaced p) (cancel (codes " dbname=") h) in
    (same, ssl_text_injective o p ho hp rest)

-- The string, cut behind its first quote.
abbrev laid_out : Parts → Bytes
laid_out c =
    codes "host='"
    ++ (c.host
        ++ (codes "' port="
            ++ (print_ℤ c.port
                ++ (codes " user='"
                    ++ (c.user
                        ++ (codes "' password='"
                            ++ (c.passwd
                                ++ (codes "' connect_timeout="
                                    ++ (print_ℤ c.timeout
                                        ++ (codes " sslmode="
                                            ++ (c.sslmode ++ behind_mode c.dbname c.ssl)))))))))))

info-laid_out : (c : Parts) → info c ≡ laid_out c
unfolding base_info append_stream
info-laid_out c = simp (append_assoc, append-nil)

space_Lacks : (z : ℤ) → Lacks b' ' (print_ℤ z)
space_Lacks z = print_ℤ-Lacks b' ' z refl (omega arith)

-- Two connection strings are equal only if all their parts are.
pub info_injective : (c c' : Parts) → IsPlain c → IsPlain c' → info c ≡ info c' → c ≡ c'
info_injective c c' p p' h =
    let e = sym (info-laid_out c) ∙ (h ∙ info-laid_out c') in
    let (host, e₁) =
      cut b'\'' c.host c'.host p.host_plain p'.host_plain (cancel (codes "host='") e) in
    let (port, e₂) =
      cut b' ' (print_ℤ c.port) (print_ℤ c'.port) (space_Lacks c.port) (space_Lacks c'.port)
        (cancel (codes " port=") e₁) in
    let (user, e₃) =
      cut b'\'' c.user c'.user p.user_plain p'.user_plain (cancel (codes "user='") e₂) in
    let (passwd, e₄) =
      cut b'\'' c.passwd c'.passwd p.passwd_plain p'.passwd_plain
        (cancel (codes " password='") e₃) in
    let (timeout, e₅) =
      cut b' ' (print_ℤ c.timeout) (print_ℤ c'.timeout) (space_Lacks c.timeout)
        (space_Lacks c'.timeout) (cancel (codes " connect_timeout=") e₄) in
    let (mode, e₆) =
      space_cut c.sslmode c'.sslmode _ _ p.mode_plain p'.mode_plain
        (behind_mode-Spaced c.dbname c.ssl) (behind_mode-Spaced c'.dbname c'.ssl)
        (cancel (codes "sslmode=") e₅) in
    let (name, ssl) =
      behind_mode_injective c.dbname c'.dbname c.ssl c'.ssl p.name_plain p'.name_plain p.ssl_plain
        p'.ssl_plain e₆ in
    let same_port = print_ℤ_injective c.port c'.port p.port_fits p'.port_fits port in
    let same_timeout =
      print_ℤ_injective c.timeout c'.timeout p.timeout_fits p'.timeout_fits timeout in
    λ i. record {
      host = host i;
      port = same_port i;
      user = user i;
      passwd = passwd i;
      timeout = same_timeout i;
      sslmode = mode i;
      dbname = name i;
      ssl = ssl i;
    }

-- Quotes in the parts are not escaped: a user whose name ends with a quote and ` password='b` has
-- the connection string of a user without, whose password begins with that.
base_info_ambiguous :
    (c : Parts) (a b d : Bytes)
    → base (record c { user = a ++ (codes "' password='" ++ b); passwd = d })
      ≡ base (record c { user = a; passwd = b ++ (codes "' password='" ++ d) })
unfolding base_info append_stream
base_info_ambiguous c a b d = simp append_assoc
