-- ===== src/HttpConn/Request/Found.antt =====
-- What do_request of http_conn.cpp finds for a target.
use linux_learning.Prelude.{
  ℕ, ◌+◌, ◌-◌, ◌<◌, ◌≡◌, refl, sym, ap, Bool, true, false, Option, Option-cases, inl, inr, none,
  some, List, ◌++◌, if◌then◌else◌, length, take, ok, Yields, yields, Yields-ok,
}
use linux_learning.CString.{NoNul}
use linux_learning.CString.Spells.{Spells, c_str-Spells}
use linux_learning.HttpConn.{
  Conn, HttpCode, FileStat, Mapping, bad_request, no_resource, forbidden_request, file_request,
  failed, mapped, read_buffer_size, filename_len,
}
use linux_learning.HttpConn.Request.{FileSystem, doc_root, do_request}

-- The path of the file for a target.
abbrev pub file_of : List ℕ → List ℕ
file_of target = doc_root ++ take (filename_len - length doc_root - 1) target

abbrev pub code_of : Option FileStat → HttpCode
code_of none = no_resource
code_of (some st) =
    if st.others_read then (if st.is_dir then bad_request else file_request) else forbidden_request

abbrev pub mapping_of : Option (List ℕ) → Mapping
mapping_of none = failed
mapping_of (some bytes) = mapped bytes

-- The result for a request for a target: what the file system says of the file, and its bytes, on the
-- socket of the connection, and with this `m_linger`.
pub record Served (fs : FileSystem) (target : List ℕ) (fd : Option ℕ) (keep : Bool)
    (r : HttpCode × Conn) : Type 0 where
  pub sockfd : r.1.sockfd ≡ fd
  pub linger : r.1.linger ≡ keep
  pub code : r.0 ≡ code_of (fs.stat (file_of target))
  pub real_file : r.1.real_file ≡ file_of target
  pub written : r.1.write_idx ≡ 0
  pub stat : r.0 ≡ file_request → fs.stat (file_of target) ≡ some r.1.file_stat
  pub file : r.0 ≡ file_request → r.1.file_address ≡ mapping_of (fs.map (file_of target))

-- The outcome for a file that stat finds, with `d` for the connection that knows its path.
stat-Served :
    (fs : FileSystem) (d : Conn) (target : List ℕ) (may_read dir : Bool) (size : ℕ)
    → let st : FileStat = record { others_read = may_read; is_dir = dir; size = size } in
      fs.stat (file_of target) ≡ some st
      → d.write_idx ≡ 0
      → d.real_file ≡ file_of target
      → Yields (Served fs target d.sockfd d.linger) (
          ok (
            if may_read
            then (if dir then (bad_request, record d { file_stat = st }) else (
              file_request,
              record d {
                file_stat = st;
                file_address = elim (fs.map (file_of target)) [
                  | none ↦ failed
                  | some bytes ↦ mapped bytes
                ];
              },
            ))
            else (forbidden_request, record d { file_stat = st })))
stat-Served fs d target true true size e zero_idx path = yields (record {
  sockfd = refl;
  linger = refl;
  code = sym (ap code_of e);
  real_file = path;
  written = zero_idx;
  stat = λ h. absurd (cc h);
  file = λ h. absurd (cc h);
})
stat-Served fs d target true false size e zero_idx path = yields (record {
  sockfd = refl;
  linger = refl;
  code = sym (ap code_of e);
  real_file = path;
  written = zero_idx;
  stat = λ h. e;
  file = λ h. mapping (fs.map (file_of target));
})
  where
    mapping :
        (o : Option (List ℕ)) → elim o [ none ↦ failed | some bytes ↦ mapped bytes ] ≡ mapping_of o
    mapping none = refl
    mapping (some bytes) = refl
stat-Served fs d target false dir size e zero_idx path = yields (record {
  sockfd = refl;
  linger = refl;
  code = sym (ap code_of e);
  real_file = path;
  written = zero_idx;
  stat = λ h. absurd (cc h);
  file = λ h. absurd (cc h);
})

pub do_request-Served :
    (fs : FileSystem) (c : Conn) (at : ℕ) (target : List ℕ)
    → c.url ≡ some at
    → at + length target < read_buffer_size
    → NoNul target
    → Spells c.read_buf at target
    → c.write_idx ≡ 0
    → Yields (Served fs target c.sockfd c.linger) (do_request fs c)
unfolding do_request
do_request-Served fs c at target u fits n v zero_idx = rw u (
    Yields-ok _ (c_str-Spells read_buffer_size target c.read_buf at fits n v)
      (elim (Option-cases (fs.stat (file_of target))) [
        | inl e ↦ rw e (
            yields (record {
              sockfd = refl;
              linger = refl;
              code = sym (ap code_of e);
              real_file = refl;
              written = zero_idx;
              stat = λ h. absurd (cc h);
              file = λ h. absurd (cc h);
            }))
        | inr (st, e) ↦ rw e (
            stat-Served fs (record c { real_file = file_of target; url = some at }) target
              st.others_read st.is_dir st.size e zero_idx refl)
      ]))
