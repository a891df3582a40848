-- ===== src/RateLimit/Keys.antt =====
-- The address without its port, and the keys of callers and methods.
use mathlib.Core.List.{append_assoc}
use incord.RateLimit.{strip_port, peer_ip, has_colon, rate_key}
use incord.Base.{
  ◌≡◌, refl, sym, ap, ◌∙◌, true, false, ◌&&◌, some, [], ◌∷◌, ◌++◌, Text, codes, text_eq,
  text_eq_iff, any, any-append, ◌==◌, arith, Bool-cases, inl, inr, length, drop,
}

strip-port : (host port : Text) → has_colon port ≡ false → strip_port (host ++ b':' ∷ port) ≡ host
unfolding strip_port any
strip-port [] port h = rw h
strip-port (c ∷ host) port h =
    let later : has_colon (host ++ b':' ∷ port) ≡ true =
      ground (arith, any-append (λ c. c == b':') host (b':' ∷ port)) in
    rw (later, strip-port host port h)

-- The identity of an address is the part before its last colon: the port is dropped, also behind an
-- IPv6 address.
pub peer_ip-port :
    (host port : Text) → has_colon port ≡ false → peer_ip (some (host ++ b':' ∷ port)) ≡ host
unfolding peer_ip any
peer_ip-port host port h =
    let found : has_colon (host ++ b':' ∷ port) ≡ true =
      ground (arith, any-append (λ c. c == b':') host (b':' ∷ port)) in
    rw (found, strip-port host port h)

drop-length : (p s : Text) → drop (length p) (p ++ s) ≡ s
drop-length [] s = refl
drop-length (c ∷ p) s = drop-length p s

rate_key_lem : (a m : Text) → rate_key a m ≡ codes "ratelimit:" ++ (a ++ b':' ∷ m)
rate_key_lem a m = simp append_assoc

module _ (a b m n : Text) (p : has_colon m ≡ false) (q : has_colon n ≡ false)
    (same : rate_key a m ≡ rate_key b n) where
  same_caller : a ≡ b
  same_caller =
      let prefix = codes "ratelimit:" in
      let left : strip_port (rate_key a m) ≡ prefix ++ a =
        ap strip_port (rate_key_lem a m ∙ sym (append_assoc prefix a (b':' ∷ m)))
        ∙ strip-port (prefix ++ a) m p in
      let right : strip_port (rate_key b n) ≡ prefix ++ b =
        ap strip_port (rate_key_lem b n ∙ sym (append_assoc prefix b (b':' ∷ n)))
        ∙ strip-port (prefix ++ b) n q in
      let whole : prefix ++ a ≡ prefix ++ b = sym left ∙ ap strip_port same ∙ right in
      sym (drop-length prefix a) ∙ ap (drop (length prefix)) whole ∙ drop-length prefix b

  same_method : m ≡ n
  same_method =
      let prefix = codes "ratelimit:" in
      let tail : a ++ b':' ∷ m ≡ b ++ b':' ∷ n =
        sym (drop-length prefix (a ++ b':' ∷ m))
        ∙ ap (drop (length prefix)) (sym (rate_key_lem a m) ∙ same ∙ rate_key_lem b n)
        ∙ drop-length prefix (b ++ b':' ∷ n) in
      let one : b ++ b':' ∷ m ≡ b ++ b':' ∷ n = ap (λ x. x ++ b':' ∷ m) (sym same_caller) ∙ tail in
      let rest : b':' ∷ m ≡ b':' ∷ n =
        sym (drop-length b (b':' ∷ m)) ∙ ap (drop (length b)) one ∙ drop-length b (b':' ∷ n) in
      ap (drop 1) rest

-- Two methods without a colon: the keys are equal only for the same caller and the same method,
-- also where an address has colons.
pub text_eq-rate_key :
    (a b m n : Text)
    → has_colon m ≡ false
    → has_colon n ≡ false
    → text_eq (rate_key a m) (rate_key b n) ≡ (text_eq a b && text_eq m n)
text_eq-rate_key a b m n p q = elim (Bool-cases (text_eq (rate_key a m) (rate_key b n))) [
  | inl e ↦
      let same : rate_key a m ≡ rate_key b n = (text_eq_iff (rate_key a m) (rate_key b n)).0 e in
      rw (
        e,
        (text_eq_iff a b).1 (same_caller a b m n p q same),
        (text_eq_iff m n).1 (same_method a b m n p q same),
      )
  | inr f ↦ elim (Bool-cases (text_eq a b && text_eq m n)) [
    | inl both ↦
        let callers : a ≡ b = (text_eq_iff a b).0 (ground arith) in
        let methods : m ≡ n = (text_eq_iff m n).0 (ground arith) in
        let keys : rate_key a m ≡ rate_key b n =
          ap (λ x. rate_key x m) callers ∙ ap (λ x. rate_key b x) methods in
        cc ((text_eq_iff (rate_key a m) (rate_key b n)).1 keys)
    | inr differ ↦ rw (f, differ)
  ]
]
