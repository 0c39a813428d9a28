-- ===== src/Context/Source.antt =====
-- Commit names and digests: `SHA40`, `SHA64` and `DIGEST`, and the all-zero value that no script
-- accepts.
use devpath_shared.Base.{Bool, ◌&&◌, not, String, ◌==ˢ◌}
use devpath_shared.Base.Pattern.{Pattern, done, times, literal, fullmatch, is_hex}

-- `re.compile(r"^[0-9a-f]{40}$")`
abbrev pub sha40 : Pattern
sha40 = times 40 is_hex done

-- `re.compile(r"^[0-9a-f]{64}$")`
abbrev pub sha64 : Pattern
sha64 = times 64 is_hex done

-- `re.compile(r"^sha256:[0-9a-f]{64}$")`
unfoldable pub digest_pattern : Pattern
unfolding literal
digest_pattern = literal "sha256:" (times 64 is_hex done)

-- `"0" * 40`
abbrev pub zero_sha40 : String
zero_sha40 = "0000000000000000000000000000000000000000"

-- `"0" * 64`
abbrev pub zero_sha64 : String
zero_sha64 = "0000000000000000000000000000000000000000000000000000000000000000"

-- `SHA40.fullmatch(value) and value != "0" * 40`
unfoldable pub is_source_sha : String → Bool
is_source_sha s = fullmatch sha40 s && not (s ==ˢ zero_sha40)
