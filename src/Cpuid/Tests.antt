-- ===== src/Cpuid/Tests.antt =====
-- Tests of the identification of the processor.
use unnamed_os.Base.{◌≡◌, refl, [], ◌∷◌}
use unnamed_os.Cpuid.{Result, cpuid_name, name_loop, skip_spaces, put_spaces}

-- A part of a name: "AB  C" between spaces.
abbrev part : Result
part = record { eax = 538976288; ebx = 538985025; ecx = 538976323; edx = 538976288 }

trims : cpuid_name part ≡ 65 ∷ 66 ∷ 32 ∷ 32 ∷ 67 ∷ []
unfolding cpuid_name skip_spaces name_loop put_spaces
trims = refl
