-- ===== src/Tests.antt =====
-- The theorems on the bit macros, the averages, the primary and the PLL dividers at concrete inputs.
use software_vsync_modulatio.Prelude.{
  ℕ, zero, suc, ◌-◌, ◌/◌, ◌%◌, ◌^◌, ◌<◌, ◌≤◌, ◌≡◌, ◌↔◌, refl, true, false, ◌==◌, Option, none, some,
  List, [], ◌∷◌, ◌++◌, arith, length, drop, replicate, if◌then◌else◌,
}
use software_vsync_modulatio.Prelude.Int.{pos}
use software_vsync_modulatio.Bits.{getbits_val}
use software_vsync_modulatio.Double.Micro.{micro}
use software_vsync_modulatio.Mmio.{Reg}
use software_vsync_modulatio.Mmio.Store.{store, content, store-IsPlain}
use software_vsync_modulatio.Phy.Restore.{IsRestorable}
use software_vsync_modulatio.SyncCommon.{find_avg}
use software_vsync_modulatio.SyncCommon.Average.{at, find_avg-eq-span}
use software_vsync_modulatio.Primary.{
  ack, Request, Exchange, vsync_collector_thread, get_last_vsyncs, answer, max_timestamps,
}
use software_vsync_modulatio.Primary.Collector.{
  last_n, captured, vsync_collector_thread-last_n, get_last_vsyncs-collector,
}
use software_vsync_modulatio.Primary.Answers.{answer_iff}
use software_vsync_modulatio.Combo.{ComboPhy, combo-IsRestorable, with_dividers}
use software_vsync_modulatio.Discovery.{Platform, Tables, c10, combo, find_enabled_phys}
use software_vsync_modulatio.Discovery.Distinct.{AllApart}
use software_vsync_modulatio.Discovery.Exclusive.{find_enabled_phys-AllApart}
use software_vsync_modulatio.Library.{Entry, Env, Globals, vsync_lib_init}
use software_vsync_modulatio.Library.Lifecycle.{Settled, vsync_lib_init-Settled}
use software_vsync_modulatio.Dkl.{DklPhy, dkl, dividers_of, read_div0, calculate_feedback_dividers}
use software_vsync_modulatio.Dkl.Dividers.{calculate_feedback_dividers-fields}
use software_vsync_modulatio.Dkl.Restore.{dkl-IsRestorable}
use software_vsync_modulatio.Dkl.Window.{Windowed, windowed, inside_at, windowed-IsWindowed}

abbrev three_stamps : List ℕ
three_stamps = 1000000 ∷ 1016000 ∷ 1033000 ∷ []

three_small : (j : ℕ) → at three_stamps j < 2 ^ 64
three_small zero = omega arith
three_small (suc zero) = omega arith
three_small (suc (suc zero)) = omega arith
three_small (suc (suc (suc j))) = omega arith

find_avg-eq-span_example : find_avg three_stamps 3 ≡ pos 16500
find_avg-eq-span_example =
    find_avg-eq-span three_stamps 3 (omega arith) three_small (omega arith) (omega arith)

abbrev some_events : List (Option ℕ)
some_events = some 1 ∷ none ∷ some 2 ∷ some 3 ∷ []

vsync_collector_thread-last_n_example :
    vsync_collector_thread 2 some_events [] ≡ last_n 2 (captured some_events)
vsync_collector_thread-last_n_example = vsync_collector_thread-last_n 2 some_events (omega arith)

get_last_vsyncs-collector_example :
    get_last_vsyncs (vsync_collector_thread 3 some_events []) 2 ≡ some (2 ∷ 3 ∷ [])
get_last_vsyncs-collector_example =
    get_last_vsyncs-collector 3 2 some_events (omega arith) (omega arith)

abbrev two_wanted : Request
two_wanted = record { header = ack; vblank_count = pos 2 }

answer_iff_example :
    (answer two_wanted three_stamps ≡ some (1016000 ∷ 1033000 ∷ replicate 98 0)) ↔ (
      (1 ≤ 2)
      × (2 ≤ max_timestamps)
      × (2 ≤ length three_stamps)
      × (drop (length three_stamps - 2) three_stamps ++ replicate (max_timestamps - 2) 0
          ≡ 1016000 ∷ 1033000 ∷ replicate 98 0))
answer_iff_example = answer_iff 2 two_wanted three_stamps (1016000 ∷ 1033000 ∷ replicate 98 0) refl

abbrev one_exchange : List Exchange
one_exchange = record { received = some two_wanted; buffer = three_stamps; sent_ok = true } ∷ []

combo-IsRestorable_example :
    IsRestorable
      (software_vsync_modulatio.Combo.combo micro store 0x164284 0x164288)
      (software_vsync_modulatio.Combo.live micro store 0x164284 0x164288 content)
      (software_vsync_modulatio.Combo.saved micro store 0x164284 0x164288)
combo-IsRestorable_example = combo-IsRestorable micro store 0x164284 0x164288 content store-IsPlain

dkl-IsRestorable_example :
    IsRestorable
      (dkl micro (windowed 1) 1)
      (software_vsync_modulatio.Dkl.Restore.live (inside_at 1))
      software_vsync_modulatio.Dkl.Restore.saved
dkl-IsRestorable_example =
    dkl-IsRestorable micro (windowed 1) 1 (λ (d : Windowed). d.index) (inside_at 1)
      (windowed-IsWindowed 1)

abbrev a_reg : Reg
a_reg = record { orig_val = 0x2CE; mod_val = 0x2CE }

abbrev a_dekel : DklPhy (ℕ → ℕ)
a_dekel = record {
  dkl_pll_div0 = a_reg;
  dkl_visa_serializer = a_reg;
  dkl_bias = a_reg;
  dkl_ssc = a_reg;
  dkl_dco = a_reg;
  device = λ a. 0x2CE;
}

calculate_feedback_dividers-fields_example :
    let s' = (calculate_feedback_dividers micro store 1 (pos 16200000000) a_dekel).1 in
    let new = dividers_of micro (pos 16200000000) (read_div0 micro store 1 a_dekel.device).0 in
    (getbits_val s'.dkl_pll_div0.mod_val 7 0 ≡ new.0)
    × (getbits_val s'.dkl_bias.mod_val 29 8 ≡ new.1)
    × (s'.dkl_pll_div0.mod_val / 2 ^ 8 ≡ 0x2CE / 2 ^ 8)
    × (s'.dkl_bias.mod_val / 2 ^ 30 ≡ 0x2CE / 2 ^ 30)
    × (s'.dkl_bias.mod_val % 2 ^ 8 ≡ 0x2CE % 2 ^ 8)
calculate_feedback_dividers-fields_example =
    calculate_feedback_dividers-fields micro store 1 (pos 16200000000) a_dekel (omega arith)
      (omega arith)

-- Two pipes are on, with a DP panel and a Combo PHY.
abbrev two_pipes : ℕ → ℕ
two_pipes a = if a == 0x60400 then 0x8A000000 else if a == 0x61400 then 0x90000000 else 0

abbrev two_ddis : Platform
two_ddis = record {
  ds =
      record { phy = c10; de_clk = 1; dpclk = 0; clock_bit = 0; mux_select_low_bit = 0 }
      ∷ record { phy = combo; de_clk = 2; dpclk = 0x164280; clock_bit = 11; mux_select_low_bit = 2 }
      ∷ [];
  first_dkl_phy_loc = 4;
}

abbrev none_in_use : Tables
none_in_use = record { combo_table = λ n. false; dkl_table = λ n. false }

find_enabled_phys-AllApart_example :
    AllApart (find_enabled_phys store true two_ddis none_in_use two_pipes).phys
find_enabled_phys-AllApart_example =
    find_enabled_phys-AllApart store true two_ddis none_in_use two_pipes

abbrev one_entry : List Entry
one_entry = record { device_ids = 0x9A49 ∷ 0x9A40 ∷ []; platform = two_ddis } ∷ []

abbrev good_env : Env
good_env = record { device_given = true; opens = true; device_id = 0x9A40; maps = true }

abbrev at_rest : Globals (ℕ → ℕ)
at_rest = record {
  is_init = false;
  supported_platform = 0;
  phy_list = none;
  tables = none_in_use;
  hardware_ts = false;
  device = two_pipes;
}

vsync_lib_init-Settled_example :
    Settled store (vsync_lib_init store one_entry good_env true true true at_rest)
vsync_lib_init-Settled_example =
    vsync_lib_init-Settled store one_entry good_env true true true at_rest (refl, refl)
