-- ===== src/Hash/Digits.antt =====
-- util.c: `nibbles` reads what `table` writes, so `table` gives each nibble a character of its own.
use spsc.Prelude.{ℕ, zero, suc, ◌<◌, ◌≡◌, ◌≢◌, refl, arith}
use spsc.Hash.{table, nibbles}

-- Every nibble is read back from its character.
pub nibbles-table : (n : ℕ) → n < 16 → nibbles (table n) ≡ n
unfolding table nibbles
nibbles-table zero h = refl
nibbles-table (suc zero) h = refl
nibbles-table (suc (suc zero)) h = refl
nibbles-table (suc (suc (suc zero))) h = refl
nibbles-table (suc (suc (suc (suc zero)))) h = refl
nibbles-table (suc (suc (suc (suc (suc zero))))) h = refl
nibbles-table (suc (suc (suc (suc (suc (suc zero)))))) h = refl
nibbles-table (suc (suc (suc (suc (suc (suc (suc zero))))))) h = refl
nibbles-table (suc (suc (suc (suc (suc (suc (suc (suc zero)))))))) h = refl
nibbles-table (suc (suc (suc (suc (suc (suc (suc (suc (suc zero))))))))) h = refl
nibbles-table (suc (suc (suc (suc (suc (suc (suc (suc (suc (suc zero)))))))))) h = refl
nibbles-table (suc (suc (suc (suc (suc (suc (suc (suc (suc (suc (suc zero))))))))))) h = refl
nibbles-table (suc (suc (suc (suc (suc (suc (suc (suc (suc (suc (suc (suc zero)))))))))))) h = refl
nibbles-table (suc (suc (suc (suc (suc (suc (suc (suc (suc (suc (suc (suc (suc zero))))))))))))) h =
    refl
nibbles-table
      (suc (suc (suc (suc (suc (suc (suc (suc (suc (suc (suc (suc (suc (suc zero)))))))))))))) h =
    refl
nibbles-table
      (suc (suc (suc (suc (suc (suc (suc (suc (suc (suc (suc (suc (suc (suc (suc zero)))))))))))))))
      h =
    refl
nibbles-table
      (suc
        (suc (suc (suc (suc (suc (suc (suc (suc (suc (suc (suc (suc (suc (suc (suc n))))))))))))))))
      h =
    absurd (omega arith)

pub table-nonzero : (n : ℕ) → table n ≢ 0
unfolding table
table-nonzero n = ground arith
