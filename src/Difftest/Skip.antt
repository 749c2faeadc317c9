-- ===== src/Difftest/Skip.antt =====
-- The two variables of dut.c that say which instructions are not compared.
use ysyxworkbench.Prelude.{ℕ, Bool, true}

-- `is_skip_ref` and `skip_dut_nr_inst`
pub record Skip : Type 0 where
  pub is_skip_ref : Bool
  pub skip_dut_nr_inst : ℕ

unfoldable pub difftest_skip_ref : Skip → Skip
difftest_skip_ref s = record s { is_skip_ref = true; skip_dut_nr_inst = 0 }
