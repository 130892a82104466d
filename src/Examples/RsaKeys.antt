-- ===== src/Examples/RsaKeys.antt =====
-- RSA keys, with numbers in unary and blocks that hold a length and the data.
use sparkle.Prelude.{
  ℕ, ◌-◌, ◌≡◌, refl, none, some, [], ◌∷◌, ◌++◌, length, replicate, drop, arith, length-append,
  length-replicate, take-length-append,
}
use sparkle.Prelude.Bytes.{Bytes, byte_at}
use sparkle.DataStream.Qt.{qt_stream, qt_stream-IsDataStream}
use sparkle.RsaKeyPair
use sparkle.RsaKeyPair.{
  RsaContext, Bignum, IsBignum, Pkcs1, IsPkcs1, public_key, set_public_key, encrypt_loop,
}
use sparkle.RsaKeyPair.Keys.{IsKey}
use sparkle.RsaKeyPair.Chunks.{decrypt-encrypt_data, encrypt_loop-endless}

abbrev unary : Bignum
unary = record { size = λ n. n; write_binary = λ n k. replicate k 1; read_binary = length }

unary-IsBignum : IsBignum unary
unary-IsBignum = record {
  binary_length = λ n k. length-replicate k 1;
  binary_reads = λ n. length-replicate n 1;
}

abbrev key : RsaContext
key = record {
  ver = 0;
  len = 14;
  n = some 33;
  e = some 3;
  d = some 7;
  p = some 3;
  q = some 11;
  dp = some 1;
  dq = some 7;
  qp = some 1;
  rn = some 4;
  rp = none;
  rq = none;
}

abbrev no_key : RsaContext
no_key = record {
  ver = 0;
  len = 0;
  n = none;
  e = none;
  d = none;
  p = none;
  q = none;
  dp = none;
  dq = none;
  qp = none;
  rn = none;
  rp = none;
  rq = none;
}

key-IsKey : IsKey qt_stream unary qt_stream-IsDataStream unary-IsBignum key
key-IsKey = record {
  ver_fits = omega arith;
  len_fits = omega arith;
  n_fits = omega arith;
  e_fits = omega arith;
  d_fits = omega arith;
  p_fits = omega arith;
  q_fits = omega arith;
  dp_fits = omega arith;
  dq_fits = omega arith;
  qp_fits = omega arith;
  rn_fits = omega arith;
  rp_fits = tt;
  rq_fits = tt;
}

abbrev plain_blocks : Pkcs1
plain_blocks = record {
  encrypt = λ call k xs chunk. length xs ∷ xs ++ replicate (k.len - 1 - length xs) 0;
  decrypt = λ k block out. (byte_at block 0, drop 1 block);
}

plain_blocks-IsPkcs1 : IsPkcs1 plain_blocks key key
plain_blocks-IsPkcs1 = record {
  block_length = λ call xs chunk h. omega (
    arith,
    length-append xs (replicate (13 - length xs) 0),
    length-replicate {A = ℕ} (13 - length xs) 0,
  );
  block_reads = λ call xs chunk out h. take-length-append xs (replicate (13 - length xs) 0);
}

decrypt-encrypt_data_example :
    (crypted : Bytes) × (RsaKeyPair.encrypt plain_blocks [] key (1 ∷ 2 ∷ 3 ∷ 4 ∷ 5 ∷ [])
      ≡ some crypted)
    × (RsaKeyPair.decrypt plain_blocks (0, []) key crypted ≡ some (1 ∷ 2 ∷ 3 ∷ 4 ∷ 5 ∷ []))
decrypt-encrypt_data_example =
    decrypt-encrypt_data plain_blocks key key plain_blocks-IsPkcs1 refl (omega arith) []
      (1 ∷ 2 ∷ 3 ∷ 4 ∷ 5 ∷ []) (0, []) (omega arith)

encrypt_loop-endless_example :
    encrypt_loop plain_blocks 1000 0 (record key { len = 11 }) [] (1 ∷ 2 ∷ []) ≡ none
encrypt_loop-endless_example =
    encrypt_loop-endless plain_blocks (record key { len = 11 }) 1000 0 [] 1 (2 ∷ []) (omega arith)
