-- ===== src/Hpet/Tests.antt =====
-- An HPET of two timers, of which the second can be the clock.
use geek_toy_os.Base.{
  ◌+◌, ◌*◌, ◌/◌, ◌^◌, bit_and, ◌≡◌, u64, [], ◌==◌, if◌then◌else◌, ◌⊎◌, ◌≢◌, none, some,
}
use geek_toy_os.Apic.{ioapic_isa_to_gsi}
use geek_toy_os.Clock.{hz}
use geek_toy_os.Hpet.{Registers, Timers, hpet_init, hpet_reg_cap, hpet_reg_cnf, hpet_reg_counter}
use geek_toy_os.Hpet.Bits.{IsMeant}
use geek_toy_os.Hpet.Start.{IsChosen, hpet_init-IsChosen}

abbrev two_timers : Registers
two_timers reg =
    if reg == 0 then 10000000 * 2 ^ 32 + 2 ^ 8 else if reg == 0x120 then 2 ^ 32 + 0x10 else 7

hpet_init-IsChosen_example :
    let gsi = ioapic_isa_to_gsi [] 0 in
    let tick = u64 (two_timers hpet_reg_cap / 2 ^ 32 * hz) in
    ((tick ≡ 0) × (hpet_init [] two_timers ≡ none))
    ⊎ ((t : Timers) × (tick ≢ 0)
        × (hpet_init [] two_timers ≡ some t)
        × (t.registers hpet_reg_cnf ≡ 0)
        × (t.registers hpet_reg_counter ≡ 0)
        × IsChosen gsi
            (1000000000000000 / tick)
            two_timers
            t.registers
            0
            (bit_and (two_timers hpet_reg_cap / 2 ^ 8) 0x1f + 1)
            t.valid_timer
        × IsMeant gsi)
hpet_init-IsChosen_example = hpet_init-IsChosen [] two_timers
