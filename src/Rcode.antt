-- ===== src/Rcode.antt =====
-- The return codes of the RT-kernel that the modelled functions give (include/minix/const.h).
pub data Rcode : Type 0 where
  ok e_mrt_mqfull e_mrt_badsem e_try_again e_mrt_badptype e_mrt_exiting : Rcode
  e_bad_proc e_bad_dest e_mrt_nomqent einval e_mrt_timeout e_mrt_unsleep e_mrt_unready : Rcode
  e_mrt_novtimer e_mrt_nomsgq e_mrt_nosoftirq e_mrt_nortmode e_bad_fcn : Rcode
  e_bad_src e_no_perm elocked efault : Rcode
