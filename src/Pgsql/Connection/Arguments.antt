-- ===== src/Pgsql/Connection/Arguments.antt =====
-- PostgreSQL/PgSQLSession.cpp, `open`: the connection string of the arguments.
use lite_database.Common.{
  ◌≡◌, refl, sym, ◌∙◌, Bool-cases, inl, inr, Option, none, some, [], codes, if◌then◌else◌, pos,
  str_eq, true, false,
}
use lite_database.Outcome.{Outcome, ok, raise, undefined, ◌>>=◌}
use lite_database.Utils.Arguments.{ConnectionArgs, get_string_arg, get_int_arg, get_bool_arg}
use lite_database.Any.Numbers.{FloatOps, IntType, cast}
use lite_database.Pgsql.Info.{conninfo, ssl_info}
use lite_database.Pgsql.Connection.{Ssl, Parts, IsPlain, info, ssl_text, info_injective}

ssl_of : FloatOps → ConnectionArgs → Outcome (Option Ssl)
ssl_of ops args = do
  key ← get_string_arg ops (codes "sslkey") true (codes "~/.postgresql/postgresql.key") args
  cert ← get_string_arg ops (codes "sslcert") true (codes "~/.postgresql/postgresql.crt") args
  rootcert ← get_string_arg ops (codes "sslrootcert") true (codes "~/.postgresql/root.crt") args
  crl ← get_string_arg ops (codes "sslcrl") true (codes "~/.postgresql/root.crl") args
  compression ← get_bool_arg (codes "sslcompression") true true args
  ok (
      some (record {
        key = key;
        cert = cert;
        rootcert = rootcert;
        crl = crl;
        compression = compression;
      }))

-- The parts that the arguments say, with their defaults; the mode `disable` has no more.
unfoldable pub parts_of : FloatOps → ConnectionArgs → Outcome Parts
unfolding ssl_of
parts_of ops args = do
  host ← get_string_arg ops (codes "host") false [] args
  port ← get_int_arg ops (codes "port") true (pos 5432) args
  dbname ← get_string_arg ops (codes "database") false [] args
  user ← get_string_arg ops (codes "user") false [] args
  passwd ← get_string_arg ops (codes "passwd") false [] args
  timeout ← get_int_arg ops (codes "timeout") true (pos 20) args
  sslmode ← get_string_arg ops (codes "sslmode") true (codes "disable") args
  ssl ← (if str_eq sslmode (codes "disable") then ok none else ssl_of ops args)
  ok (record {
    host = host;
    port = cast IntType.unsigned_short port;
    user = user;
    passwd = passwd;
    timeout = timeout;
    sslmode = sslmode;
    dbname = dbname;
    ssl = ssl;
  })

-- Two chains that begin with the same step.
bind_step :
    {A B C : Type 0} (m : Outcome A) (f : A → Outcome C) (g : A → Outcome B) (k : B → Outcome C)
    → ((a : A) → f a ≡ (g a >>= k))
    → (m >>= f) ≡ (m >>= g >>= k)
bind_step (ok a) f g k h = h a
bind_step (raise e) f g k h = refl
bind_step undefined f g k h = refl

ssl_info-ssl_of :
    (ops : FloatOps) (args : ConnectionArgs)
    → ssl_info ops args ≡ (ssl_of ops args >>= λ o. ok (ssl_text o))
unfolding ssl_info ssl_of
ssl_info-ssl_of ops args =
    bind_step (get_string_arg ops (codes "sslkey") true (codes "~/.postgresql/postgresql.key") args)
      _ _ _
      λ key.
        bind_step
          (get_string_arg ops (codes "sslcert") true (codes "~/.postgresql/postgresql.crt") args) _
          _ _
          λ cert.
            bind_step
              (get_string_arg ops (codes "sslrootcert") true (codes "~/.postgresql/root.crt") args)
              _ _ _
              λ root.
                bind_step
                  (get_string_arg ops (codes "sslcrl") true (codes "~/.postgresql/root.crl") args) _
                  _ _
                  λ crl.
                    bind_step (get_bool_arg (codes "sslcompression") true true args) _ _ _
                      λ compression. refl

bind_map :
    {A B C D : Type 0} (m : Outcome A) (h : A → B) (f : B → Outcome C) (r : A → D)
    (k : D → Outcome C)
    → ((a : A) → f (h a) ≡ k (r a))
    → (m >>= (λ a. ok (h a)) >>= f) ≡ (m >>= (λ a. ok (r a)) >>= k)
bind_map (ok a) h f r k e = e a
bind_map (raise x) h f r k e = refl
bind_map undefined h f r k e = refl

ok_injective : {A : Type 0} {a b : A} → ok a ≡ ok b → a ≡ b
ok_injective e = cc

-- The string is that of the parts, and what throws for the one throws for the other.
conninfo-parts_of :
    (ops : FloatOps) (args : ConnectionArgs)
    → conninfo ops args ≡ (parts_of ops args >>= λ c. ok (info c))
unfolding conninfo parts_of
conninfo-parts_of ops args =
    bind_step (get_string_arg ops (codes "host") false [] args) _ _ _ λ host.
      bind_step (get_int_arg ops (codes "port") true (pos 5432) args) _ _ _ λ port.
        bind_step (get_string_arg ops (codes "database") false [] args) _ _ _ λ dbname.
          bind_step (get_string_arg ops (codes "user") false [] args) _ _ _ λ user.
            bind_step (get_string_arg ops (codes "passwd") false [] args) _ _ _ λ passwd.
              bind_step (get_int_arg ops (codes "timeout") true (pos 20) args) _ _ _ λ timeout.
                bind_step (get_string_arg ops (codes "sslmode") true (codes "disable") args) _ _ _
                  λ sslmode. elim (Bool-cases (str_eq sslmode (codes "disable"))) [
                    | inl without ↦ rw without refl
                    | inr with_ssl ↦
                        rw (with_ssl, ssl_info-ssl_of ops args)
                          (bind_map (ssl_of ops args) _ _ _ _ (λ o. refl))
                  ]

-- Where the arguments of two connections are read without an exception, to numbers that are ints, no
-- quote in a quoted part and no space in another text, equal connection strings have equal parts,
-- those for `sslmode` included.
pub conninfo_injective :
    (ops : FloatOps) (args args' : ConnectionArgs) (c c' : Parts)
    → parts_of ops args ≡ ok c
    → parts_of ops args' ≡ ok c'
    → IsPlain c
    → IsPlain c'
    → conninfo ops args ≡ conninfo ops args'
    → c ≡ c'
conninfo_injective ops args args' c c' e e' plain plain' same =
    let left : conninfo ops args ≡ ok (info c) = conninfo-parts_of ops args ∙ rw e refl in
    let right : conninfo ops args' ≡ ok (info c') = conninfo-parts_of ops args' ∙ rw e' refl in
    info_injective c c' plain plain' (ok_injective (sym left ∙ (same ∙ right)))
