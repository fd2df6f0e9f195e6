-- ===== src/Tests/Crates.antt =====
-- Concrete crates for src/store.rs and src/server.rs: a cache, a channel, keys and a cipher that
-- meet what the model assumes of them.
use native.Mathlib.Nat.{add_comm}
use tee_prover_server.Prelude.{
  Option, none, some, ℕ, zero, suc, ◌≡◌, refl, ◌∙◌, ap, ◌+◌, ◌-◌, ◌++◌, Bool, Text, Bytes, codes,
}
use tee_prover_server.Prelude.{
  length, take, take-append, length-append, List, [], ◌∷◌, Result, ok, err, arith, if◌then◌else◌,
}
use tee_prover_server.Prelude.Dict.{lookup, has, remove, touch}
use tee_prover_server.Store.{Lru, IsLru}
use tee_prover_server.Utils.{Crypto, IsEcdh, IsSealing, TokenClient}
use tee_prover_server.Server.Env.{Mpsc, IsMpsc}

pub record ListCache : Type 0 where
  pub size : ℕ
  pub entries : List (Text × Bytes)

abbrev pub list_lru : Lru
list_lru = record {
  Cache = ListCache;
  new = λ n. record { size = n; entries = [] };
  contains = λ c k. has k c.entries;
  get = λ c k. (lookup k c.entries, record c { entries = touch k c.entries });
  put = λ c k v.
      (lookup k c.entries, record c { entries = take c.size ((k, v) ∷ remove k c.entries) });
  pop = λ c k. (lookup k c.entries, record c { entries = remove k c.entries });
  cap = λ c. c.size;
  entries = λ c. c.entries;
}

pub list_lru-IsLru : IsLru list_lru
list_lru-IsLru = record {
  cap-new = λ n. refl;
  entries-new = λ n. refl;
  contains_lem = λ c k. refl;
  get_lem = λ c k. refl;
  cap-get = λ c k. refl;
  entries-get = λ c k. refl;
  cap-put = λ c k v. refl;
  entries-put = λ c k v. refl;
  cap-pop = λ c k. refl;
  entries-pop = λ c k. refl;
}

pub record Queue (A : Type 0) : Type 0 where
  pub waiting : List A
  pub gone : Bool

abbrev received : {A : Type 0} → Queue A → Option A × Queue A
received q = elim q.waiting [ [] ↦ (none, q) | a ∷ rest ↦ (some a, record q { waiting = rest }) ]

abbrev pub list_mpsc : (A : Type 0) → Mpsc A
list_mpsc A = record {
  Channel = Queue A;
  send = λ a q.
      if q.gone
      then (err (codes "channel closed"), q)
      else (ok tt, record q { waiting = q.waiting ++ (a ∷ []) });
  recv = received;
  items = λ q. q.waiting;
  closed = λ q. q.gone;
  cap = λ q. 10;
}

pub list_mpsc-IsMpsc : (A : Type 0) → IsMpsc (list_mpsc A)
list_mpsc-IsMpsc A = record {
  send-open = λ a q h. rw h (refl, refl);
  send-closed = λ a q h. rw h ((codes "channel closed", refl), refl);
  recv-cons = λ a rest q h. rw h (refl, refl);
  recv-nil = λ q h. rw h;
  cap-pos = λ q. omega arith;
}

abbrev pub repeat : ℕ → ℕ → Bytes
repeat zero b = []
repeat (suc n) b = b ∷ repeat n b

abbrev first_byte : Bytes → Result ℕ Text
first_byte [] = err (codes "crypto error")
first_byte (p ∷ _) = ok p

-- A toy exchange and cipher: a key is a number, and sealing adds sixteen zeros.
abbrev pub toy_crypto : Crypto
toy_crypto = record {
  Secret = ℕ;
  Public = ℕ;
  public_of = λ a. a;
  from_sec1_bytes = first_byte;
  compressed = λ p. p ∷ repeat 32 0;
  diffie_hellman = λ a p. repeat 32 (a + p);
  base64 = λ bytes. bytes;
  aes_decrypt = λ key nonce bytes. ok (take (length bytes - 16) bytes);
  utf8_error = λ bytes. codes "invalid utf-8";
}

pub toy_crypto-IsEcdh : IsEcdh toy_crypto
toy_crypto-IsEcdh = record {
  dh_comm = λ a b. ap (repeat 32) (add_comm a b);
  length-dh = λ a p. refl;
  length-compressed = λ p. refl;
  from_sec1-compressed = λ p. refl;
}

abbrev pub toy_seal : Bytes → Bytes → Bytes → Bytes × Bytes
toy_seal key nonce plain = (plain, repeat 16 0)

sealed_length : (plain : Bytes) → length (plain ++ repeat 16 0) - 16 ≡ length plain
sealed_length plain = omega (arith, length-append plain (repeat 16 0))

pub toy_crypto-IsSealing : IsSealing toy_crypto toy_seal
toy_crypto-IsSealing = record {
  length-tag = λ key nonce plain. refl;
  decrypt-seal = λ key nonce plain k n. ap ok (
      ap (λ m. take m (plain ++ repeat 16 0)) (sealed_length plain)
      ∙ take-append plain (repeat 16 0));
}

abbrev pub toy_tokens : TokenClient
toy_tokens = record {
  Request = Text;
  Response = Text;
  to_json = λ r. ok r.token_type;
  post = λ socket uri header kind body. ok body;
  request = λ r. ok r;
  aggregate = λ r. ok r;
}
