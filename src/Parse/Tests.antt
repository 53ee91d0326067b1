-- ===== src/Parse/Tests.antt =====
-- The inputs of tests/parse.cpp.
use ervan.Base.{Bytes, codes, ◌≡◌, refl}
use ervan.Parse.Results.{Outcome, ok, malformed, Part}
use ervan.Parse.{path, address}

abbrev routed : Bytes
routed = codes "<@relayA,@relayB.xyz,@relayC:giga.test.a@example.com> stray"

abbrev fields : Outcome Part → Bytes × Bytes × Bytes × Bytes
fields (ok p) = (p.mailbox.local_part.buffer, p.mailbox.domain.buffer, p.rest, address p.mailbox)
fields _ = (codes "", codes "", codes "", codes "")

path-routed :
    fields (path 0 routed)
    ≡ (codes "giga.test.a", codes "example.com", codes " stray", codes "giga.test.a@example.com")
unfolding path address
path-routed = refl

path_quoted :
    fields (path 0 (codes "<\"asdf\\ bsdf\"@example.com>"))
    ≡ (codes "asdf bsdf", codes "example.com", codes "", codes "\"asdf\\ bsdf\"@example.com")
unfolding path address
path_quoted = refl

path_empty :
    fields (path 0 (codes "<\"\"@example.com>"))
    ≡ (codes "", codes "example.com", codes "", codes "\"\"@example.com")
unfolding path address
path_empty = refl

too_long :
    path 0 (codes "<abcdefghabcdefghabcdefghabcdefghabcdefghabcdefghabcdefghabcdefghA@example.com>")
    ≡ malformed
unfolding path
too_long = refl
