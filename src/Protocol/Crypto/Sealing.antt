-- ===== src/Protocol/Crypto/Sealing.antt =====
-- What is sealed under a key and a context opens under the same key and context.
use connauth.Common.{
  ℕ, ◌≤◌, ◌≡◌, some, List, ◌++◌, arith, length, take, drop, take-append_left, drop-append_left,
  length-append, ok, >>=-eq-ok, nat_eq,
}
use connauth.Protocol.{Context, validate_field}
use connauth.Protocol.Crypto.{
  Aead, Crypto, additional_data, new_gcm, Random, read_random, seal, open_message,
}

-- What crypto/cipher documents of an AEAD: `Open` undoes `Seal` at the same nonce and data.
pub record IsAead {Byte : Type 0} (gcm : Aead Byte) : Type 0 where
  pub open-seal :
      (nonce plain aad : List Byte)
      → gcm.open_sealed nonce (gcm.seal nonce plain aad) aad ≡ some plain

-- What crypto/rand documents: a read that succeeds fills the buffer.
pub record IsRandom (c : Crypto) (random : Random c) : Type 0 where
  pub fills : (n : ℕ) (b : List c.Byte) → random n ≡ some b → length b ≡ n

module _ (c : Crypto) (random : Random c) (good_random : IsRandom c random) where
  split_sealed :
      (nonce text : List c.Byte) (n : ℕ)
      → length nonce ≡ n
      → (take n (nonce ++ text) ≡ nonce)
        × (drop n (nonce ++ text) ≡ text)
        × (n ≤ length (nonce ++ text))
  split_sealed nonce text n e = rw (← e) (
    take-append_left nonce text,
    drop-append_left nonce text,
    omega (arith, length-append nonce text),
  )

  new_gcm-aead :
      (key : List c.Byte) (gcm : Aead c.Byte) → new_gcm c key ≡ ok gcm → c.aead key ≡ some gcm
  unfolding new_gcm
  new_gcm-aead key gcm h = ground (arith, h)

  open_parts :
      (key : List c.Byte) (ctx : Context) (plain : List c.Byte) (gcm : Aead c.Byte)
      (nonce : List c.Byte)
      → validate_field "key_id" ctx.key_id ≡ ok tt
      → validate_field "server_id" ctx.server_id ≡ ok tt
      → new_gcm c key ≡ ok gcm
      → IsAead gcm
      → length nonce ≡ gcm.nonce_size
      → open_message c key ctx (nonce ++ gcm.seal nonce plain (additional_data c ctx)) ≡ ok plain
  unfolding open_message
  open_parts key ctx plain gcm nonce k s g good n =
      let aad = additional_data c ctx in
      let parts = split_sealed nonce (gcm.seal nonce plain aad) gcm.nonce_size n in
      ground (arith, k, s, g, parts.0, parts.1, parts.2, good.open-seal nonce plain aad)

  -- With an AEAD whose open undoes its seal and a random source that fills its buffer, what Seal
  -- returns is opened by Open to the payload, under the same key and context.
  pub open_message-seal :
      (key : List c.Byte) (ctx : Context) (plain sealed : List c.Byte)
      → ((gcm : Aead c.Byte) → c.aead key ≡ some gcm → IsAead gcm)
      → seal c random key ctx plain ≡ ok sealed
      → open_message c key ctx sealed ≡ ok plain
  unfolding seal
  open_message-seal key ctx plain sealed good h =
      let (u, key_ok, h₁) = >>=-eq-ok (validate_field "key_id" ctx.key_id) _ h in
      let (v, server_ok, h₂) = >>=-eq-ok (validate_field "server_id" ctx.server_id) _ h₁ in
      let (gcm, gcm_ok, h₃) = >>=-eq-ok (new_gcm c key) _ h₂ in
      let (nonce, nonce_ok, h₄) = >>=-eq-ok (read_random c random gcm.nonce_size) _ h₃ in
      let same : nonce ++ gcm.seal nonce plain (additional_data c ctx) ≡ sealed = cc h₄ in
      rw (← same) (
        open_parts key ctx plain gcm nonce key_ok server_ok gcm_ok
          (good gcm (new_gcm-aead key gcm gcm_ok))
          (good_random.fills gcm.nonce_size nonce (ground (arith, nonce_ok))))
