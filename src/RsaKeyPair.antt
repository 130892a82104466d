-- ===== src/RsaKeyPair.antt =====
-- libsparkle/RSAKeyPair.cpp: RSA keys as bytes, and data encrypted in chunks. PolarSSL's big numbers and
-- PKCS#1 operations, Qt's base64 and QDataStream are parameters.
pub mod Keys
pub mod Chunks
use sparkle.Prelude.{
  ℕ, zero, suc, ◌+◌, ◌-◌, ◌≤◌, ◌^◌, ◌≡◌, Bool, true, false, List, [], ◌∷◌, ◌++◌, length, take, drop,
  Option, none, some, ◌==◌, ltb, if◌then◌else◌,
}
use sparkle.Prelude.Bytes.{Bytes, bytes_eq}
use sparkle.DataStream.{Reader, DataStream}

-- An mpi: `none` has no limbs, as mpi_free leaves it.
abbrev pub Mpi : Type 0
Mpi = Option ℕ

-- rsa_context, without its padding mode and its source of random numbers.
pub record RsaContext : Type 0 where
  pub ver : ℕ
  pub len : ℕ
  pub n : Mpi
  pub e : Mpi
  pub d : Mpi
  pub p : Mpi
  pub q : Mpi
  pub dp : Mpi
  pub dq : Mpi
  pub qp : Mpi
  pub rn : Mpi
  pub rp : Mpi
  pub rq : Mpi

-- mpi_size, mpi_write_binary and mpi_read_binary.
pub record Bignum : Type 0 where
  pub size : ℕ → ℕ
  pub write_binary : ℕ → ℕ → Bytes
  pub read_binary : Bytes → ℕ

-- What was written into as many bytes as the number has reads back.
pub record IsBignum (b : Bignum) : Type 0 where
  pub binary_length : (n k : ℕ) → length (b.write_binary n k) ≡ k
  pub binary_reads : (n : ℕ) → b.read_binary (b.write_binary n (b.size n)) ≡ n

-- QByteArray::toBase64 and QByteArray::fromBase64.
pub record Base64 : Type 0 where
  pub encode : Bytes → Bytes
  pub decode : Bytes → Bytes

-- KeyMagic, and "-----BEGIN".
abbrev pub key_magic : ℕ
key_magic = 1112363081

abbrev pub pem_start : Bytes
pem_start = 45 ∷ 45 ∷ 45 ∷ 45 ∷ 45 ∷ 66 ∷ 69 ∷ 71 ∷ 73 ∷ 78 ∷ []

-- Text in base64 decodes, and has no dash in it.
pub record IsBase64 (c : Base64) : Type 0 where
  pub decodes : (xs : Bytes) → c.decode (c.encode xs) ≡ xs
  pub no_pem : (xs : Bytes) → bytes_eq (take 10 (c.encode xs)) pem_start ≡ false

module _ (s : DataStream) (b : Bignum) where
  -- operator<<(QDataStream &, const mpi &)
  unfoldable pub put_mpi : Mpi → Bytes
  put_mpi none = s.put_bytes []
  put_mpi (some n) = s.put_bytes (b.write_binary n (b.size n))

  -- operator>>(QDataStream &, mpi &)
  unfoldable pub mpi_of : Bytes → Mpi
  mpi_of raw = if length raw == 0 then none else some (b.read_binary raw)

  unfoldable pub get_mpi : Reader Mpi
  get_mpi xs = let (raw, rest) = s.get_bytes xs in (mpi_of raw, rest)

  -- publicKey
  unfoldable pub public_key : RsaContext → Bytes
  public_key k =
      s.put_u32 key_magic
      ++ (s.put_u32 k.ver ++ (s.put_u32 k.len ++ (put_mpi k.n ++ (put_mpi k.e ++ put_mpi k.rn))))

  unfoldable pub read_public_key : Bytes → RsaContext → RsaContext
  read_public_key xs k =
      let (ver, xs1) = s.get_u32 xs in
      let (len, xs2) = s.get_u32 xs1 in
      let (n, xs3) = get_mpi xs2 in
      let (e, xs4) = get_mpi xs3 in
      let (rn, xs5) = get_mpi xs4 in record k { ver = ver; len = len; n = n; e = e; rn = rn }

  -- setPublicKey: whether the magic number was right, and the key then.
  unfoldable pub set_public_key : Bytes → RsaContext → Bool × RsaContext
  set_public_key xs k =
      let (magic, rest) = s.get_u32 xs in
      if magic == key_magic then (true, read_public_key rest k) else (false, k)

  -- The part of writeToFile and readFromFile between base64 and the numbers.
  unfoldable pub private_key : RsaContext → Bytes
  private_key k =
      s.put_u32 key_magic
      ++ (s.put_u32 k.ver
          ++ (s.put_u32 k.len
              ++ (put_mpi k.n
                  ++ (put_mpi k.e
                      ++ (put_mpi k.d
                          ++ (put_mpi k.p
                              ++ (put_mpi k.q
                                  ++ (put_mpi k.dp
                                      ++ (put_mpi k.dq
                                          ++ (put_mpi k.qp
                                              ++ (put_mpi k.rn
                                                  ++ (put_mpi k.rp ++ put_mpi k.rq))))))))))))

  unfoldable pub read_private_key : Bytes → RsaContext
  read_private_key xs =
      let (ver, xs1) = s.get_u32 xs in
      let (len, xs2) = s.get_u32 xs1 in
      let (n, xs3) = get_mpi xs2 in
      let (e, xs4) = get_mpi xs3 in
      let (d, xs5) = get_mpi xs4 in
      let (p, xs6) = get_mpi xs5 in
      let (q, xs7) = get_mpi xs6 in
      let (dp, xs8) = get_mpi xs7 in
      let (dq, xs9) = get_mpi xs8 in
      let (qp, xs10) = get_mpi xs9 in
      let (rn, xs11) = get_mpi xs10 in
      let (rp, xs12) = get_mpi xs11 in
      let (rq, xs13) = get_mpi xs12 in
      record {
        ver = ver;
        len = len;
        n = n;
        e = e;
        d = d;
        p = p;
        q = q;
        dp = dp;
        dq = dq;
        qp = qp;
        rn = rn;
        rp = rp;
        rq = rq;
      }

  module _ (c : Base64) where
    -- writeToFile: whether the file could be opened, and what it holds then.
    unfoldable pub write_to_file : Bool → RsaContext → Bool × Option Bytes
    write_to_file can_open k =
        if can_open then (true, some (c.encode (private_key k))) else (false, none)

    unfoldable pub read_key_data : Bytes → RsaContext → Bool × RsaContext
    read_key_data xs k =
        let (magic, rest) = s.get_u32 xs in
        if magic == key_magic then (true, read_private_key rest) else (false, k)

    -- readFromFile: `none` is a file that cannot be opened.
    unfoldable pub read_from_file : Option Bytes → RsaContext → Bool × RsaContext
    read_from_file none k = (false, k)
    read_from_file (some raw) k =
        if bytes_eq (take 10 raw) pem_start then (false, k) else read_key_data (c.decode raw) k

-- rsa_pkcs1_encrypt with RSA_PUBLIC and rsa_pkcs1_decrypt with RSA_PRIVATE. The number is that of
-- the call, as the padding is random; the last argument is the buffer that the result goes to, and
-- for decryption the variable for its length too, which an error leaves as they are.
pub record Pkcs1 : Type 0 where
  pub encrypt : ℕ → RsaContext → Bytes → Bytes → Bytes
  pub decrypt : RsaContext → Bytes → ℕ × Bytes → ℕ × Bytes

-- `output += ...` in front of what the rest of a loop appends.
abbrev pub prepend : Bytes → Option Bytes → Option Bytes
prepend out none = none
prepend out (some rest) = some (out ++ rest)

module _ (pkcs : Pkcs1) where
  -- The loop of encrypt, over chunks of len - 11 bytes: a length of 11 or less makes chunks of no
  -- bytes. `none` is the end of the fuel.
  unfoldable pub encrypt_loop : ℕ → ℕ → RsaContext → Bytes → Bytes → Option Bytes
  encrypt_loop fuel call k chunk [] = some []
  encrypt_loop zero call k chunk (x ∷ xs) = none
  encrypt_loop (suc fuel) call k chunk (x ∷ xs) =
      let flen = k.len - 11 in
      let chunk' = pkcs.encrypt call k (take flen (x ∷ xs)) chunk in
      prepend (take k.len chunk') (encrypt_loop fuel (suc call) k chunk' (drop flen (x ∷ xs)))

  -- encrypt, with what the buffer holds at first. A length that is negative as an int has no buffer:
  -- new throws.
  unfoldable pub encrypt : Bytes → RsaContext → Bytes → Option Bytes
  encrypt memory k xs =
      let looped = encrypt_loop (length xs) 0 k memory xs in
      if ltb k.len (2 ^ 31) then looped else none

  -- The loop of decrypt.
  unfoldable pub decrypt_loop : ℕ → RsaContext → ℕ × Bytes → Bytes → Option Bytes
  decrypt_loop fuel k out [] = some []
  decrypt_loop zero k out (x ∷ xs) = none
  decrypt_loop (suc fuel) k out (x ∷ xs) =
      let (dec, chunk) = pkcs.decrypt k (take k.len (x ∷ xs)) out in
      prepend (take dec chunk) (decrypt_loop fuel k (dec, chunk) (drop k.len (x ∷ xs)))

  -- decrypt, with what the variable for the length and the buffer hold at first.
  unfoldable pub decrypt : ℕ × Bytes → RsaContext → Bytes → Option Bytes
  decrypt memory k xs =
      let looped = decrypt_loop (length xs) k memory xs in
      if ltb k.len (2 ^ 31) then looped else none

-- What is encrypted for a key is decrypted by its private half: a chunk of up to len - 11 bytes
-- becomes one of len bytes, and comes back with its length.
pub record IsPkcs1 (pkcs : Pkcs1) (public private : RsaContext) : Type 0 where
  pub block_length :
      (call : ℕ) (xs chunk : Bytes)
      → length xs + 11 ≤ public.len
      → length (pkcs.encrypt call public xs chunk) ≡ public.len
  pub block_reads :
      (call : ℕ) (xs chunk : Bytes) (out : ℕ × Bytes)
      → length xs + 11 ≤ public.len
      → let r = pkcs.decrypt private (pkcs.encrypt call public xs chunk) out in take r.0 r.1 ≡ xs
