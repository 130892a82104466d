-- ===== src/RsaKeyPair/Keys.antt =====
-- Keys that were written read back.
use sparkle.Prelude.{
  ℕ, ◌+◌, ◌<◌, ◌^◌, ◌≡◌, refl, Bool, true, false, [], ◌++◌, length, none, some, arith, ◌==◌,
  if◌then◌else◌,
}
use mathlib.Core.List.{append-nil}
use sparkle.Prelude.Bytes.{Bytes}
use sparkle.DataStream.{DataStream, IsDataStream}
use sparkle.RsaKeyPair.{
  Mpi, RsaContext, Bignum, IsBignum, Base64, IsBase64, key_magic, put_mpi, mpi_of, get_mpi,
  public_key, read_public_key, set_public_key, private_key, read_private_key, write_to_file,
  read_key_data, read_from_file,
}

module _ (s : DataStream) (b : Bignum) (laws : IsDataStream s) (numbers : IsBignum b) where
  -- A number other than 0, which has a byte or more, or none at all.
  abbrev pub IsMpi : Mpi → Type 0
  IsMpi none = Unit
  IsMpi (some n) = (0 < b.size n) × (b.size n + 1 < 2 ^ 32)

  pub record IsKey (k : RsaContext) : Type 0 where
    pub ver_fits : k.ver < 2 ^ 32
    pub len_fits : k.len < 2 ^ 32
    pub n_fits : IsMpi k.n
    pub e_fits : IsMpi k.e
    pub d_fits : IsMpi k.d
    pub p_fits : IsMpi k.p
    pub q_fits : IsMpi k.q
    pub dp_fits : IsMpi k.dp
    pub dq_fits : IsMpi k.dq
    pub qp_fits : IsMpi k.qp
    pub rn_fits : IsMpi k.rn
    pub rp_fits : IsMpi k.rp
    pub rq_fits : IsMpi k.rq

  mpi_of-binary : (n : ℕ) → 0 < b.size n → mpi_of s b (b.write_binary n (b.size n)) ≡ some n
  unfolding mpi_of
  mpi_of-binary n h =
      rw (numbers.binary_length n (b.size n), positive (b.size n) h, numbers.binary_reads n) refl
    where
      positive : (m : ℕ) → 0 < m → (m == 0) ≡ false
      positive m h = ground arith

  get_mpi-put_mpi :
      (m : Mpi) (rest : Bytes) → IsMpi m → get_mpi s b (put_mpi s b m ++ rest) ≡ (m, rest)
  unfolding get_mpi put_mpi mpi_of
  get_mpi-put_mpi none rest h = rw (laws.bytes_reads [] rest (omega arith)) refl
  get_mpi-put_mpi (some n) rest h =
      let e = numbers.binary_length n (b.size n) in
      let fits : length (b.write_binary n (b.size n)) + 1 < 2 ^ 32 = omega (arith, e, h.1) in
      rw (laws.bytes_reads (b.write_binary n (b.size n)) rest fits, mpi_of-binary n h.0) refl

  get_mpi_last : (m : Mpi) → IsMpi m → get_mpi s b (put_mpi s b m) ≡ (m, [])
  get_mpi_last m h = rw append-nil at (get_mpi-put_mpi m [] h)

  -- A public key that is read back sets the version, the length and the public numbers to those of
  -- the key that it was written from, and leaves the private ones; bytes that do not begin with the
  -- magic number change nothing.
  pub set_public_key-public_key :
      (k old : RsaContext)
      → IsKey k
      → set_public_key s b (public_key s b k) old
        ≡ (true, record old { ver = k.ver; len = k.len; n = k.n; e = k.e; rn = k.rn })
  unfolding set_public_key public_key read_public_key
  set_public_key-public_key k old h =
      rw
        (
          laws.u32_reads key_magic _ (omega arith),
          laws.u32_reads k.ver _ h.ver_fits,
          laws.u32_reads k.len _ h.len_fits,
          get_mpi-put_mpi k.n _ h.n_fits,
          get_mpi-put_mpi k.e _ h.e_fits,
          get_mpi_last k.rn h.rn_fits,
        )
        refl

  read_key_data-private_key :
      (c : Base64) (k old : RsaContext)
      → IsKey k
      → read_key_data s b c (private_key s b k) old ≡ (true, k)
  unfolding read_key_data private_key read_private_key
  read_key_data-private_key c k old h =
      rw
        (
          laws.u32_reads key_magic _ (omega arith),
          laws.u32_reads k.ver _ h.ver_fits,
          laws.u32_reads k.len _ h.len_fits,
          get_mpi-put_mpi k.n _ h.n_fits,
          get_mpi-put_mpi k.e _ h.e_fits,
          get_mpi-put_mpi k.d _ h.d_fits,
          get_mpi-put_mpi k.p _ h.p_fits,
          get_mpi-put_mpi k.q _ h.q_fits,
          get_mpi-put_mpi k.dp _ h.dp_fits,
          get_mpi-put_mpi k.dq _ h.dq_fits,
          get_mpi-put_mpi k.qp _ h.qp_fits,
          get_mpi-put_mpi k.rn _ h.rn_fits,
          get_mpi-put_mpi k.rp _ h.rp_fits,
          get_mpi_last k.rq h.rq_fits,
        )
        refl

  -- A key pair that is written to a file that can be opened is read from it, whatever the key
  -- object held before; a file that cannot be opened is reported, and changes nothing.
  pub read_from_file-write_to_file :
      (c : Base64) (k old : RsaContext)
      → IsBase64 c
      → IsKey k
      → (can_open : Bool)
      → ((write_to_file s b c can_open k).0 ≡ can_open)
        × (read_from_file s b c (write_to_file s b c can_open k).1 old
            ≡ (if can_open then (true, k) else (false, old)))
  unfolding write_to_file read_from_file
  read_from_file-write_to_file c k old text h false = (refl, refl)
  read_from_file-write_to_file c k old text h true = (
    refl,
    rw (text.no_pem (private_key s b k), text.decodes (private_key s b k))
        (read_key_data-private_key c k old h),
  )
