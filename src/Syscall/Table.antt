-- ===== src/Syscall/Table.antt =====
-- The numbers of the system calls in include/unistd.h, and sys_call_table of include/linux/sys.h.
use my_linux_kernel.Common.{ℕ, List, [], ◌∷◌}

-- __NR_setup to __NR_uselib
pub data Call : Type 0 where
  nr_setup : Call
  nr_exit : Call
  nr_fork : Call
  nr_read : Call
  nr_write : Call
  nr_open : Call
  nr_close : Call
  nr_waitpid : Call
  nr_creat : Call
  nr_link : Call
  nr_unlink : Call
  nr_execve : Call
  nr_chdir : Call
  nr_time : Call
  nr_mknod : Call
  nr_chmod : Call
  nr_chown : Call
  nr_break : Call
  nr_stat : Call
  nr_lseek : Call
  nr_getpid : Call
  nr_mount : Call
  nr_umount : Call
  nr_setuid : Call
  nr_getuid : Call
  nr_stime : Call
  nr_ptrace : Call
  nr_alarm : Call
  nr_fstat : Call
  nr_pause : Call
  nr_utime : Call
  nr_stty : Call
  nr_gtty : Call
  nr_access : Call
  nr_nice : Call
  nr_ftime : Call
  nr_sync : Call
  nr_kill : Call
  nr_rename : Call
  nr_mkdir : Call
  nr_rmdir : Call
  nr_dup : Call
  nr_pipe : Call
  nr_times : Call
  nr_prof : Call
  nr_brk : Call
  nr_setgid : Call
  nr_getgid : Call
  nr_signal : Call
  nr_geteuid : Call
  nr_getegid : Call
  nr_acct : Call
  nr_phys : Call
  nr_lock : Call
  nr_ioctl : Call
  nr_fcntl : Call
  nr_mpx : Call
  nr_setpgid : Call
  nr_ulimit : Call
  nr_uname : Call
  nr_umask : Call
  nr_chroot : Call
  nr_ustat : Call
  nr_dup2 : Call
  nr_getppid : Call
  nr_getpgrp : Call
  nr_setsid : Call
  nr_sigaction : Call
  nr_sgetmask : Call
  nr_ssetmask : Call
  nr_setreuid : Call
  nr_setregid : Call
  nr_sigsuspend : Call
  nr_sigpending : Call
  nr_sethostname : Call
  nr_setrlimit : Call
  nr_getrlimit : Call
  nr_getrusage : Call
  nr_gettimeofday : Call
  nr_settimeofday : Call
  nr_getgroups : Call
  nr_setgroups : Call
  nr_select : Call
  nr_symlink : Call
  nr_lstat : Call
  nr_readlink : Call
  nr_uselib : Call

abbrev pub number_of : Call → ℕ
number_of nr_setup = 0
number_of nr_exit = 1
number_of nr_fork = 2
number_of nr_read = 3
number_of nr_write = 4
number_of nr_open = 5
number_of nr_close = 6
number_of nr_waitpid = 7
number_of nr_creat = 8
number_of nr_link = 9
number_of nr_unlink = 10
number_of nr_execve = 11
number_of nr_chdir = 12
number_of nr_time = 13
number_of nr_mknod = 14
number_of nr_chmod = 15
number_of nr_chown = 16
number_of nr_break = 17
number_of nr_stat = 18
number_of nr_lseek = 19
number_of nr_getpid = 20
number_of nr_mount = 21
number_of nr_umount = 22
number_of nr_setuid = 23
number_of nr_getuid = 24
number_of nr_stime = 25
number_of nr_ptrace = 26
number_of nr_alarm = 27
number_of nr_fstat = 28
number_of nr_pause = 29
number_of nr_utime = 30
number_of nr_stty = 31
number_of nr_gtty = 32
number_of nr_access = 33
number_of nr_nice = 34
number_of nr_ftime = 35
number_of nr_sync = 36
number_of nr_kill = 37
number_of nr_rename = 38
number_of nr_mkdir = 39
number_of nr_rmdir = 40
number_of nr_dup = 41
number_of nr_pipe = 42
number_of nr_times = 43
number_of nr_prof = 44
number_of nr_brk = 45
number_of nr_setgid = 46
number_of nr_getgid = 47
number_of nr_signal = 48
number_of nr_geteuid = 49
number_of nr_getegid = 50
number_of nr_acct = 51
number_of nr_phys = 52
number_of nr_lock = 53
number_of nr_ioctl = 54
number_of nr_fcntl = 55
number_of nr_mpx = 56
number_of nr_setpgid = 57
number_of nr_ulimit = 58
number_of nr_uname = 59
number_of nr_umask = 60
number_of nr_chroot = 61
number_of nr_ustat = 62
number_of nr_dup2 = 63
number_of nr_getppid = 64
number_of nr_getpgrp = 65
number_of nr_setsid = 66
number_of nr_sigaction = 67
number_of nr_sgetmask = 68
number_of nr_ssetmask = 69
number_of nr_setreuid = 70
number_of nr_setregid = 71
number_of nr_sigsuspend = 72
number_of nr_sigpending = 73
number_of nr_sethostname = 74
number_of nr_setrlimit = 75
number_of nr_getrlimit = 76
number_of nr_getrusage = 77
number_of nr_gettimeofday = 78
number_of nr_settimeofday = 79
number_of nr_getgroups = 80
number_of nr_setgroups = 81
number_of nr_select = 82
number_of nr_symlink = 83
number_of nr_lstat = 84
number_of nr_readlink = 85
number_of nr_uselib = 86

-- An entry of the table: 0, or the address of sys_fork.
pub data Entry : Type 0 where
  no_entry : Entry
  sys_fork_entry : Entry

abbrev pub sys_call_table : List Entry
sys_call_table =
    no_entry ∷ no_entry ∷ sys_fork_entry ∷ no_entry ∷ no_entry ∷ no_entry ∷ no_entry ∷ no_entry
    ∷ no_entry ∷ no_entry ∷ no_entry ∷ no_entry ∷ no_entry ∷ no_entry ∷ no_entry ∷ no_entry
    ∷ no_entry ∷ no_entry ∷ no_entry ∷ no_entry ∷ no_entry ∷ no_entry ∷ no_entry ∷ no_entry
    ∷ no_entry ∷ no_entry ∷ no_entry ∷ no_entry ∷ no_entry ∷ no_entry ∷ no_entry ∷ no_entry
    ∷ no_entry ∷ no_entry ∷ no_entry ∷ no_entry ∷ no_entry ∷ no_entry ∷ no_entry ∷ no_entry
    ∷ no_entry ∷ no_entry ∷ no_entry ∷ no_entry ∷ no_entry ∷ no_entry ∷ no_entry ∷ no_entry
    ∷ no_entry ∷ no_entry ∷ no_entry ∷ no_entry ∷ no_entry ∷ no_entry ∷ no_entry ∷ no_entry
    ∷ no_entry ∷ no_entry ∷ no_entry ∷ no_entry ∷ no_entry ∷ no_entry ∷ no_entry ∷ no_entry
    ∷ no_entry ∷ no_entry ∷ no_entry ∷ no_entry ∷ no_entry ∷ no_entry ∷ no_entry ∷ no_entry
    ∷ no_entry ∷ no_entry ∷ no_entry ∷ no_entry ∷ no_entry ∷ no_entry ∷ no_entry ∷ no_entry
    ∷ no_entry ∷ no_entry ∷ no_entry ∷ no_entry ∷ no_entry ∷ no_entry ∷ no_entry ∷ []
