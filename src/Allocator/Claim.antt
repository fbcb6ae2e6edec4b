-- ===== src/Allocator/Claim.antt =====
-- What the allocator does to one frame: to claim it, and to give it back.
use silicium_rs.Base.{ℕ, ◌+◌, ◌<◌, ◌≡◌, refl, ◌||◌, false, arith, if◌then◌else◌, done, add64}
use silicium_rs.Crates.Addresses.{Addresses}
use silicium_rs.Crates.BitFlags.{BitFlags}
use silicium_rs.Address.Laws.{phys_to_virt-eq}
use silicium_rs.FrameState.{FrameInfo}
use silicium_rs.Frame.Flags
use silicium_rs.Allocator.{Effects, Memory, is_free, claim, zero_bytes}

module _ ⦃x : Addresses⦄ ⦃bits : BitFlags⦄ where
  -- The memory after a claim: the frame is zeroed if the flags say so.
  abbrev pub claimed_memory : ℕ → FrameInfo → Memory → Memory
  claimed_memory flags info memory =
      if bits.contains flags Flags.zeroed
      then zero_bytes (info.frame.start + 0xffff_8000_0000_0000) 4096 memory
      else memory

  claimed_info : ℕ → FrameInfo → FrameInfo
  claimed_info flags info =
      let set =
        if bits.contains flags Flags.kernel
        then bits.insert info.flags Flags.kernel
        else info.flags in
      record info { flags = bits.remove set Flags.free; count = info.count + 1 }

  claimed_effects : ℕ → FrameInfo → Effects → Effects
  claimed_effects flags info e =
      let stat = record e.statistic { allocated = add64 e.statistic.allocated 1 } in
      record {
        statistic =
            if bits.contains flags Flags.kernel
            then record stat { kernel = add64 stat.kernel 1 }
            else stat;
        memory = claimed_memory flags info e.memory;
      }

  claim-eq :
      (flags : ℕ) (info : FrameInfo) (e : Effects)
      → info.frame.start < 0x8000_0000_0000
      → info.count + 1 < 0x10000000000000000
      → claim flags info e ≡ done (claimed_info flags info, claimed_effects flags info e)
  unfolding claim claimed_info claimed_effects
  claim-eq flags info e h k = ground (arith, phys_to_virt-eq info.frame.start, x.page_size_lem)

  -- The outcome of a claim: one more user, no longer free, and marked as a kernel frame if the
  -- flags say so.
  pub record Claimed (flags : ℕ) (info : FrameInfo) (e : Effects) (info' : FrameInfo) (e' : Effects)
      : Type 0 where
    pub frame : info'.frame ≡ info.frame
    pub count : info'.count ≡ info.count + 1
    pub taken : is_free info' ≡ false
    pub kernel :
        bits.contains info'.flags Flags.kernel
        ≡ (bits.contains flags Flags.kernel || bits.contains info.flags Flags.kernel)
    pub allocated : e'.statistic.allocated ≡ add64 e.statistic.allocated 1
    pub memory : e'.memory ≡ claimed_memory flags info e.memory

  pub claim_lem :
      (flags : ℕ) (info : FrameInfo) (e : Effects)
      → info.frame.start < 0x8000_0000_0000
      → info.count + 1 < 0x10000000000000000
      → (info' : FrameInfo) × (e' : Effects) × (claim flags info e ≡ done (info', e'))
        × Claimed flags info e info' e'
  unfolding claimed_info claimed_effects
  claim_lem flags info e h k = (
    claimed_info flags info,
    claimed_effects flags info e,
    claim-eq flags info e h k,
    record {
      frame = refl;
      count = refl;
      taken = ground (
        arith,
        bits.contains-remove
            (if bits.contains flags Flags.kernel
              then bits.insert info.flags Flags.kernel
              else info.flags)
            2 2,
      );
      kernel = ground (
        arith,
        bits.contains-remove info.flags 2 5,
        bits.contains-remove (bits.insert info.flags Flags.kernel) 2 5,
        bits.contains-insert info.flags 5 5,
      );
      allocated = ground arith;
      memory = refl;
    },
  )
