-- ===== src/Acl/Runs.antt =====
-- The theorems on access control lists at a concrete list.
use simple_nfsd.Prelude.{◌≡◌, refl, true, false, [], ◌∷◌}
use simple_nfsd.Text.{codes}
use simple_nfsd.Acl.{AclEntry, FileAcl, matches, permission_loop, has_permission}

abbrev readers : AclEntry
readers = record { type = 2; id = 100; permissions = 4; name = codes "readers" }

abbrev owner_entry : AclEntry
owner_entry = record { type = 1; id = 1000; permissions = 7; name = codes "owner" }

abbrev acl : FileAcl
acl = record { entries = owner_entry ∷ readers ∷ []; default_mask = 0; is_directory = false }

reader_reads : has_permission 5 5 (100 ∷ []) 4 acl ≡ true
unfolding has_permission permission_loop matches
reader_reads = refl

abbrev everyone : AclEntry
everyone = record { type = 3; id = 0; permissions = 1; name = [] }
