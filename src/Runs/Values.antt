-- ===== src/Runs/Values.antt =====
-- Values for the runs.
use chaintopeslashrust_tapyr.Common.{
  ℕ, zero, ◌+◌, ◌%◌, ◌≡◌, refl, ap, arith, [], ◌∷◌, Bool, true, ltb, ltb→lt, length, All,
  if◌then◌else◌, Bool-cases, inl, inr, ◌*◌, suc,
}
use chaintopeslashrust_tapyr.Outcome.{Bytes, IsByte}
use chaintopeslashrust_tapyr.Hashes.{HashFunction}
use chaintopeslashrust_tapyr.Transaction.{Sizes, OutPoint, TxIn, TxOut, Transaction}

abbrev pub all_bytes : Bytes → Bool
all_bytes [] = true
all_bytes (b ∷ bs) = if ltb b 256 then all_bytes bs else ltb b 256

pub all_bytes_sound : (bs : Bytes) → all_bytes bs ≡ true → All IsByte bs
all_bytes_sound [] h = tt
all_bytes_sound (b ∷ bs) h = elim (Bool-cases (ltb b 256)) [
  | inl small ↦ (ltb→lt b 256 small, all_bytes_sound bs (ground arith))
  | inr large ↦ absurd (ground arith)
]

unfoldable pub zeros : ℕ → Bytes
zeros zero = []
zeros (suc n) = 0 ∷ zeros n

pub length-zeros : (n : ℕ) → length (zeros n) ≡ n
unfolding zeros
length-zeros zero = refl
length-zeros (suc n) = ap suc (length-zeros n)

pub zeros-IsByte : (n : ℕ) → All IsByte (zeros n)
unfolding zeros
zeros-IsByte zero = tt
zeros-IsByte (suc n) = (omega arith, zeros-IsByte n)

unfoldable pub sum_bytes : Bytes → ℕ
sum_bytes [] = 0
sum_bytes (b ∷ bs) = b + 3 * sum_bytes bs

-- A function of the right shape in place of the double hash.
unfoldable pub toy_hash : Bytes → Bytes
toy_hash bs = sum_bytes bs % 256 ∷ length bs % 256 ∷ zeros 30

pub length-toy_hash : (bs : Bytes) → length (toy_hash bs) ≡ 32
unfolding toy_hash
length-toy_hash bs = ap (λ n. suc (suc n)) (length-zeros 30)

pub toy_hash-IsByte : (bs : Bytes) → All IsByte (toy_hash bs)
unfolding toy_hash
toy_hash-IsByte bs = (omega arith, (omega arith, zeros-IsByte 30))

abbrev pub toy : HashFunction 32
toy = record { hash = toy_hash; length-hash = length-toy_hash; hash-IsByte = toy_hash-IsByte }

abbrev pub sizes : Sizes
sizes = record { tx_in = 104; tx_out = 32; byte_vec = 24; transaction = 56; hash = 32 }

abbrev pub spent : OutPoint
spent = record { txid = zeros 32; vout = 1 }

abbrev pub paid : TxOut
paid = record { value = 5000; script_pubkey = 0x51 ∷ [] }

abbrev pub with_witness : TxIn
with_witness = record {
  previous_output = spent;
  script_sig = 0x52 ∷ [];
  sequence = 0xffffffff;
  witness = (1 ∷ 2 ∷ []) ∷ [];
}

abbrev pub legacy_input : TxIn
legacy_input = record {
  previous_output = spent;
  script_sig = 0x52 ∷ [];
  sequence = 0xffffffff;
  witness = [];
}

-- One input with a witness and one without.
abbrev pub segwit_tx : Transaction
segwit_tx = record {
  version = 1;
  lock_time = 7;
  input = with_witness ∷ legacy_input ∷ [];
  output = paid ∷ [];
}
