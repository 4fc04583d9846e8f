-- ===== src/Process/Fingerprints.antt =====
-- Which processes, and which files, are taken for the same.
use rhel_fapolicyd.Base.{◌≡◌, ◌↔◌, false, some, arith, int_eq_iff}
use rhel_fapolicyd.Process.{ProcInfo, FileInfo, compare_proc_infos, compare_file_infos}

-- Two processes are taken for the same exactly if the inode, the pid, both parts of the time and the
-- device agree; two files exactly if the inode, both parts of the time, the size and the device do.
pub same_fingerprint :
    ((p q : ProcInfo)
      → (compare_proc_infos (some p) (some q) ≡ false) ↔ (
          (p.inode ≡ q.inode)
          × (p.pid ≡ q.pid)
          × (p.tv_nsec ≡ q.tv_nsec)
          × (p.tv_sec ≡ q.tv_sec)
          × (p.device ≡ q.device)))
    × ((p q : FileInfo)
        → (compare_file_infos (some p) (some q) ≡ false) ↔ (
            (p.inode ≡ q.inode)
            × (p.tv_nsec ≡ q.tv_nsec)
            × (p.tv_sec ≡ q.tv_sec)
            × (p.size ≡ q.size)
            × (p.device ≡ q.device)))
unfolding compare_proc_infos compare_file_infos
same_fingerprint = (λ p q. ground (arith, int_eq_iff p.pid q.pid), λ p q. ground arith)
