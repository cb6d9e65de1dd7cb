-- ===== src/Filesystem/Quotas.antt =====
-- The quotas of FilesystemManager, src/simple-nfsd/core/filesystem.cpp, under a path and a user.
use simple_nfsd.Prelude.{
  ℕ, ◌+◌, ◌-◌, ◌%◌, ◌^◌, ◌≡◌, ◌↔◌, refl, Bool, true, false, ◌&&◌, ◌||◌, List, Option, none, some,
  ltb, leb, ◌==◌, if◌then◌else◌, arith,
}
use simple_nfsd.Map.{Key, find, insert}
use simple_nfsd.Text.{equal, before}
use simple_nfsd.Text.Order.{equal_iff, before_ne, before_trans, before_total}
use simple_nfsd.Filesystem.{QuotaEntry, FilesystemManager}

-- std::pair<std::string, uint32_t>
abbrev pub QuotaKey : Type 0
QuotaKey = List ℕ × ℕ

unfoldable pub same_quota : QuotaKey → QuotaKey → Bool
same_quota (p, u) (q, v) = equal p q && u == v

unfoldable pub quota_before : QuotaKey → QuotaKey → Bool
quota_before (p, u) (q, v) = before p q || (equal p q && ltb u v)

same_quota_sound : (a b : QuotaKey) → same_quota a b ≡ true → a ≡ b
unfolding same_quota
same_quota_sound (p, u) (q, v) e = ground (arith, equal_iff p q)

same_quota_refl : (a : QuotaKey) → same_quota a a ≡ true
unfolding same_quota
same_quota_refl (p, u) = ground (arith, (equal_iff p p).1 refl)

pub same_quota_iff : (a b : QuotaKey) → (same_quota a b ≡ true) ↔ (a ≡ b)
same_quota_iff a b = (same_quota_sound a b, λ e. rw (← e) (same_quota_refl a))

pub quota_before_ne : (a b : QuotaKey) → quota_before a b ≡ true → same_quota a b ≡ false
unfolding same_quota quota_before
quota_before_ne (p, u) (q, v) e = ground (arith, before_ne p q)

pub quota_before_trans :
    (a b c : QuotaKey) → quota_before a b ≡ true → quota_before b c ≡ true → quota_before a c ≡ true
unfolding quota_before
quota_before_trans (p, u) (q, v) (r, w) e h =
    ground (arith, before_trans p q r, equal_iff p q, equal_iff q r, equal_iff p r)

pub quota_before_total :
    (a b : QuotaKey) → same_quota a b ≡ false → quota_before b a ≡ false → quota_before a b ≡ true
unfolding same_quota quota_before
quota_before_total (p, u) (q, v) e h =
    ground (arith, before_total p q, equal_iff p q, equal_iff q p)

instance abbrev pub quota_key : Key QuotaKey
quota_key = record {
  same = same_quota;
  before = quota_before;
  same_iff = same_quota_iff;
  before_ne = quota_before_ne;
  before_trans = quota_before_trans;
  before_total = quota_before_total;
}

pub record QuotaInfo : Type 0 where
  pub used_bytes : ℕ
  pub soft_limit : ℕ
  pub hard_limit : ℕ
  pub available_bytes : ℕ

-- From the entry found; without one there is no limit.
unfoldable pub quota_info : Option QuotaEntry → QuotaInfo
quota_info none = record {
  used_bytes = 0;
  soft_limit = 0;
  hard_limit = 0;
  available_bytes = 2 ^ 64 - 1;
}
quota_info (some e) = record {
  used_bytes = e.used_bytes;
  soft_limit = e.soft_limit;
  hard_limit = e.hard_limit;
  available_bytes = if ltb e.used_bytes e.hard_limit then e.hard_limit - e.used_bytes else 0;
}

-- The answer is always true.
unfoldable pub get_quota_info : List ℕ → ℕ → FilesystemManager → QuotaInfo × Bool
get_quota_info path uid m = (quota_info (find (path, uid) m.quota_map), true)

-- The sum wraps, as a uint64_t.
unfoldable pub check_quota : List ℕ → ℕ → ℕ → FilesystemManager → Bool
check_quota path uid requested_bytes m =
    let (quota, known) = get_quota_info path uid m in
    known
    && (quota.hard_limit == 0
        || leb ((quota.used_bytes + requested_bytes) % 2 ^ 64) quota.hard_limit)

unfoldable pub set_quota : List ℕ → ℕ → ℕ → ℕ → FilesystemManager → FilesystemManager × Bool
set_quota path uid soft_limit hard_limit m = (
  record m {
    quota_map =
        insert (path, uid)
          (record { uid = uid; soft_limit = soft_limit; hard_limit = hard_limit; used_bytes = 0 })
          m.quota_map;
  },
  true,
)
