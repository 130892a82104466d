-- ===== src/Blowfish.antt =====
-- crypto/blowfish.c, the block cipher. Words are natural numbers; a sum is taken `% 2 ^ 32`.
pub mod Tables
mod Tests
pub mod Feistel
pub mod Block
pub mod Schedule
pub mod Repeated
pub mod Key
use sparkle.Prelude.{
  ℕ, zero, suc, ◌+◌, ◌*◌, ◌/◌, ◌%◌, ◌^◌, bit_xor, Bool, true, false, List, [], ◌∷◌, ◌++◌, get_or,
  set, length, ◌==◌, ◌||◌, if◌then◌else◌,
}
use sparkle.Prelude.Bytes.{Bytes, byte_at, word32_at, be32}
use sparkle.Blowfish.Tables.{ks0, ks1, ks2, ks3, ps}

-- BLOWFISH_context
pub record Context : Type 0 where
  pub s0 : List ℕ
  pub s1 : List ℕ
  pub s2 : List ℕ
  pub s3 : List ℕ
  pub p : List ℕ

-- F(x): the four bytes of `x`, the highest first, index the S boxes.
function_f : Context → ℕ → ℕ
function_f bc x =
    (bit_xor ((get_or bc.s0 (x / 2 ^ 24 % 256) 0 + get_or bc.s1 (x / 2 ^ 16 % 256) 0) % 2 ^ 32)
        (get_or bc.s2 (x / 256 % 256) 0)
      + get_or bc.s3 (x % 256) 0)
    % 2 ^ 32

-- R(l, r, i)
round : Context → ℕ → ℕ × ℕ → ℕ × ℕ
round bc i (l, r) = let l' : ℕ = bit_xor l (get_or bc.p i 0) in (l', bit_xor r (function_f bc l'))

abbrev swap : ℕ × ℕ → ℕ × ℕ
swap (a, b) = (b, a)

-- R(xl, xr, i); R(xr, xl, j)
pub round_pair : Context → ℕ → ℕ → ℕ × ℕ → ℕ × ℕ
round_pair bc i j x = swap (round bc j (swap (round bc i x)))

-- xl ^= p[i]; xr ^= p[j]; the halves are returned exchanged.
pub whiten : Context → ℕ → ℕ → ℕ × ℕ → ℕ × ℕ
whiten bc i j (xl, xr) = (bit_xor xr (get_or bc.p j 0), bit_xor xl (get_or bc.p i 0))

pub do_encrypt : Context → ℕ × ℕ → ℕ × ℕ
do_encrypt bc x =
    let x2 = round_pair bc 0 1 x in
    let x4 = round_pair bc 2 3 x2 in
    let x6 = round_pair bc 4 5 x4 in
    let x8 = round_pair bc 6 7 x6 in
    let x10 = round_pair bc 8 9 x8 in
    let x12 = round_pair bc 10 11 x10 in
    let x14 = round_pair bc 12 13 x12 in let x16 = round_pair bc 14 15 x14 in whiten bc 16 17 x16

pub decrypt : Context → ℕ × ℕ → ℕ × ℕ
decrypt bc x =
    let x16 = round_pair bc 17 16 x in
    let x14 = round_pair bc 15 14 x16 in
    let x12 = round_pair bc 13 12 x14 in
    let x10 = round_pair bc 11 10 x12 in
    let x8 = round_pair bc 9 8 x10 in
    let x6 = round_pair bc 7 6 x8 in
    let x4 = round_pair bc 5 4 x6 in let x2 = round_pair bc 3 2 x4 in whiten bc 1 0 x2

abbrev load_block : Bytes → ℕ × ℕ
load_block inbuf = (word32_at inbuf 0, word32_at inbuf 4)

abbrev store_block : ℕ × ℕ → Bytes
store_block (d1, d2) = be32 d1 ++ be32 d2

pub do_encrypt_block : Context → Bytes → Bytes
do_encrypt_block bc inbuf = store_block (do_encrypt bc (load_block inbuf))

pub do_decrypt_block : Context → Bytes → Bytes
do_decrypt_block bc inbuf = store_block (decrypt bc (load_block inbuf))

-- The four key bytes from `j` on, cyclically, as a word.
key_word : Bytes → ℕ → ℕ
key_word key j =
    byte_at key j * 2 ^ 24
    + byte_at key ((j + 1) % length key) * 2 ^ 16
    + byte_at key ((j + 2) % length key) * 256
    + byte_at key ((j + 3) % length key)

-- p[i] ^= data for the `n` entries that are left, with `j` moving over the key.
pub mix_key : Bytes → ℕ → ℕ → ℕ → List ℕ → List ℕ
mix_key key zero i j p = p
mix_key key (suc n) i j p =
    mix_key key n (suc i) ((j + 4) % length key) (set p i (bit_xor (get_or p i 0) (key_word key j)))

-- Which array of the context a loop of the key schedule fills.
pub data Part : Type 0 where
  p_array s_box0 s_box1 s_box2 s_box3 : Part

abbrev pub part : Part → Context → List ℕ
part p_array c = c.p
part s_box0 c = c.s0
part s_box1 c = c.s1
part s_box2 c = c.s2
part s_box3 c = c.s3

abbrev pub set_part : Part → Context → List ℕ → Context
set_part p_array c xs = record c { p = xs }
set_part s_box0 c xs = record c { s0 = xs }
set_part s_box1 c xs = record c { s1 = xs }
set_part s_box2 c xs = record c { s2 = xs }
set_part s_box3 c xs = record c { s3 = xs }

-- `n` times: encrypt the running pair under the context so far, and store it at `i` and `i + 1`.
fill : Part → ℕ → ℕ → Context → ℕ × ℕ → Context × (ℕ × ℕ)
fill a zero i c x = (c, x)
fill a (suc n) i c x =
    let y = do_encrypt c x in
    let (l, r) = y in fill a n (i + 2) (set_part a c (set (set (part a c) i l) (i + 1) r)) y

-- Whether an entry occurs again in a table.
occurs : ℕ → List ℕ → Bool
occurs x [] = false
occurs x (y ∷ ys) = x == y || occurs x ys

repeats : List ℕ → Bool
repeats [] = false
repeats (x ∷ xs) = occurs x xs || repeats xs

-- The schedule, and whether the key is weak (the return value -1).
pub do_bf_setkey : Bytes → Context × Bool
do_bf_setkey key =
    let c0 : Context = record {
      s0 = ks0;
      s1 = ks1;
      s2 = ks2;
      s3 = ks3;
      p = mix_key key 18 0 0 ps;
    } in
    let (c1, x1) = fill p_array 9 0 c0 (0, 0) in
    let (c2, x2) = fill s_box0 128 0 c1 x1 in
    let (c3, x3) = fill s_box1 128 0 c2 x2 in
    let (c4, x4) = fill s_box2 128 0 c3 x3 in
    let (c5, x5) = fill s_box3 128 0 c4 x4 in
    (c5, repeats c5.s0 || (repeats c5.s1 || (repeats c5.s2 || repeats c5.s3)))
