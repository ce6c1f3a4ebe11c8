-- ===== src/Ctl/Status.antt =====
-- cmd/msbctl/client.go: exit codes.
use msb_manager.Prelude.{ℕ, ◌≤◌, ◌<◌, ◌&&◌, ◌==◌, leb, ltb, if◌then◌else◌, ◌≡◌, ◌≢◌, ◌↔◌, arith}

-- exitCodeForStatus
unfoldable pub exit_code_for_status : ℕ → ℕ
exit_code_for_status status =
    if status == 207
    then 2
    else if leb 200 status && ltb status 300
    then 0
    else if leb 400 status && ltb status 500
    then 4
    else if leb 500 status
    then 5
    else 1

-- A script sees success exactly for the statuses 200 to 299 but for 207, which lists failures among
-- its items.
pub exit_code_for_status_iff :
    (status : ℕ)
    → (exit_code_for_status status ≡ 0) ↔ ((200 ≤ status) × (status < 300) × (status ≢ 207))
unfolding exit_code_for_status
exit_code_for_status_iff status = ground arith
