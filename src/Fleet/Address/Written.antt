-- ===== src/Fleet/Address/Written.antt =====
-- What an address shows of the credentials in it (addr.go).
use labview.Common.{◌≡◌, refl, sym, true, false, ◌||◌, [], ◌∷◌, ◌++◌, arith, append_assoc}
use labview.Common.Text.{Text, codes, has_byte, has_prefix, before, to_lower, trim_space, is_empty}
use labview.Secrets.Masked.{cut_last_complete, cut_last-none, cut_mark_complete}
use labview.Fleet.Address.{
  opens_path, has_path, split_scheme, drop_credentials, split_host_port, parse_address,
}

abbrev pub with_scheme : Text → Text → Text
with_scheme scheme rest = scheme ++ (codes "://" ++ rest)

split_scheme-mark :
    (scheme rest : Text)
    → has_byte b':' scheme ≡ false
    → split_scheme (with_scheme scheme rest) ≡ (to_lower scheme, rest)
unfolding split_scheme
split_scheme-mark scheme rest h = rw (split_scheme, cut_mark_complete scheme rest h) refl

drop_credentials-at :
    (userinfo rest : Text)
    → has_path userinfo ≡ false
    → has_byte b'@' rest ≡ false
    → drop_credentials (userinfo ++ b'@' ∷ rest) ≡ rest
unfolding drop_credentials
drop_credentials-at userinfo rest u h =
    rw (drop_credentials, cut_last_complete b'@' userinfo rest h, u) refl

drop_credentials-none : (rest : Text) → has_byte b'@' rest ≡ false → drop_credentials rest ≡ rest
unfolding drop_credentials
drop_credentials-none rest h = rw (drop_credentials, cut_last-none b'@' rest h) refl

-- Credentials make no difference to what an address says but the text that it keeps as written, if
-- no `@` stands behind theirs, no byte that opens a path stands in them, the scheme holds no colon
-- and neither address has white space round it.
pub parse_address-credentials :
    (scheme userinfo rest : Text)
    → has_byte b':' scheme ≡ false
    → has_path userinfo ≡ false
    → has_byte b'@' rest ≡ false
    → trim_space (with_scheme scheme (userinfo ++ b'@' ∷ rest))
      ≡ with_scheme scheme (userinfo ++ b'@' ∷ rest)
    → trim_space (with_scheme scheme rest) ≡ with_scheme scheme rest
    → parse_address (with_scheme scheme (userinfo ++ b'@' ∷ rest))
      ≡ record (parse_address (with_scheme scheme rest)) {
        raw = with_scheme scheme (userinfo ++ b'@' ∷ rest);
      }
unfolding parse_address
parse_address-credentials scheme userinfo rest s u h t k =
    rw
      (
        parse_address,
        t,
        k,
        split_scheme-mark scheme (userinfo ++ b'@' ∷ rest) s,
        split_scheme-mark scheme rest s,
        drop_credentials-at userinfo rest u h,
        drop_credentials-none rest h,
      )
      refl

has_path-append : (a b : Text) → has_path (a ++ b) ≡ (has_path a || has_path b)
unfolding has_path
has_path-append [] b = refl
has_path-append (x ∷ a) b = ground (arith, has_path-append a b)

before-path : (a rest : Text) → has_path a ≡ false → before opens_path (a ++ b'/' ∷ rest) ≡ a
unfolding has_path before
before-path [] rest h = refl
before-path (x ∷ a) rest h = ground (arith, before-path a rest)

drop_credentials-late :
    (a p q : Text)
    → has_byte b'@' q ≡ false
    → drop_credentials (a ++ b'/' ∷ (p ++ b'@' ∷ q)) ≡ a ++ b'/' ∷ (p ++ b'@' ∷ q)
unfolding drop_credentials has_path
drop_credentials-late a p q h =
    let whole : a ++ b'/' ∷ (p ++ b'@' ∷ q) ≡ (a ++ b'/' ∷ p) ++ b'@' ∷ q =
      sym (append_assoc a (b'/' ∷ p) (b'@' ∷ q)) in
    let late : has_path (a ++ b'/' ∷ p) ≡ true = ground (arith, has_path-append a (b'/' ∷ p)) in
    rw (drop_credentials, whole, cut_last_complete b'@' (a ++ b'/' ∷ p) q h, late) whole

split_host_port-colon :
    (host port : Text)
    → has_prefix (host ++ b':' ∷ port) (codes "[") ≡ false
    → has_byte b':' host ≡ false
    → has_byte b':' port ≡ false
    → split_host_port (host ++ b':' ∷ port) ≡ (host, port)
unfolding split_host_port
split_host_port-colon host port b h p =
    rw (split_host_port, b, cut_last_complete b':' host port p, h) refl

-- Where an `@` stands in the path, credentials are not dropped: the port is then the password, with
-- the `@` and the host behind it. The password and the host hold no colon.
pub parse_address-late :
    (scheme user password host p q : Text)
    → has_byte b':' scheme ≡ false
    → has_byte b':' user ≡ false
    → has_byte b':' (password ++ b'@' ∷ host) ≡ false
    → has_path (user ++ b':' ∷ (password ++ b'@' ∷ host)) ≡ false
    → has_prefix (user ++ b':' ∷ (password ++ b'@' ∷ host)) (codes "[") ≡ false
    → is_empty (password ++ b'@' ∷ host) ≡ false
    → has_byte b'@' q ≡ false
    → trim_space
        (with_scheme scheme ((user ++ b':' ∷ (password ++ b'@' ∷ host)) ++ b'/' ∷ (p ++ b'@' ∷ q)))
      ≡ with_scheme scheme ((user ++ b':' ∷ (password ++ b'@' ∷ host)) ++ b'/' ∷ (p ++ b'@' ∷ q))
    → (parse_address (
        with_scheme scheme
          ((user ++ b':' ∷ (password ++ b'@' ∷ host)) ++ b'/' ∷ (p ++ b'@' ∷ q)))).port
      ≡ password ++ b'@' ∷ host
unfolding parse_address
parse_address-late scheme user password host p q s u w m b e h t =
    let authority = user ++ b':' ∷ (password ++ b'@' ∷ host) in
    rw
      (
        parse_address,
        t,
        split_scheme-mark scheme (authority ++ b'/' ∷ (p ++ b'@' ∷ q)) s,
        drop_credentials-late authority p q h,
        before-path authority (p ++ b'@' ∷ q) m,
        split_host_port-colon user (password ++ b'@' ∷ host) b u w,
        e,
      )
      refl
