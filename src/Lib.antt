-- ===== src/Lib.antt =====
-- Models of PttBBS, a bulletin board system in C, and theorems about them.
--
-- The program is the session process of mbbsd/ with the shared memory that all sessions map
-- (include/pttstruct.h). cache.c keeps the tables of that memory, record.c the files of records on
-- disk, brc.c the marks of the articles that a user has read, chc.c a game between two sessions.
--
--   Base       numbers, tests, lists and signed integers for all parts
--   Chc        mbbsd/chc.c: the rules of Chinese chess (dist, between, chc_canmove, chc_movechess);
--              Chc.King: chc_init_board, findking, chc_iskfk, chc_ischeck
--   Brc        mbbsd/brc.c: brc_unread_time, brc_unread, brc_addlist. The record Brc has the globals
--              of the file that concern the current board. Brc.Buffer: brc_findrecord_in, brc_putrecord,
--              brc_enlarge_buf, brc_insert_record on brc_buf, a list of words of 4 bytes; Brc.Records
--              reads the buffer as a map from boards to times, Brc.Save joins it with the current board
--   Uhash      mbbsd/cache.c: add_to_uhash, remove_from_uhash, searchuser, getuserid, setuserid, with
--              StringHash of mbbsd/stuff.c. The record Shm has the three arrays of the table
--   Utmp       mbbsd/cache.c: search_ulist_pid, search_ulistn, search_ulist_userid, count_logins,
--              getbnum over one loop. The records Utmp and Boards have the sorted indices
--   Record     mbbsd/record.c: get_records, substitute_record, delete_records, append_record and the
--              others by record number. A file is the list of its bytes
--   Guess      mbbsd/guess.c: check_data, result, legal, computer
--   Card       mbbsd/card.c: card_give, card_99_add, card_99_cpu
--   Chicken    mbbsd/chicken.c: time_diff, ch_book, ch_kiss, ch_eatoo, ch_eatmedicine, deadtype
--   Calendar   mbbsd/calendar.c: MonthDay, IsLeap, Days, ParseDate, InsertEvent
--   NameList   mbbsd/name.c: AddNameList, RemoveNameList, ToggleNameList, GetSubList, MaxLen and others
--   Money      mbbsd/cache.c and mbbsd/passwd.c: setumoney, deumoney, passwd_update, passwd_query
--   Intbsearch mbbsd/stuff.c: intbsearch
--   Lock       mbbsd/cal.c: lockutmpmode, unlockutmpmode, is_playing; mbbsd/cache.c: touchbpostnum
--   Fav        mbbsd/fav.c: the folders of favourite boards. A Fav is a fav_t with its slots, a Book
--              adds fav_number. Fav.Folder: get_fav_item, fav_add, fav_remove, fav_add_board and the
--              others on one folder; Fav.Folder.Move: move_in_folder; Fav.Stack: the open folders;
--              Fav.Rebuild: rebuild_fav on a heap of folders
--   Go         mbbsd/go.c: the board, GO_count, GO_countlib; Go.Board: GO_eval, GO_check, GO_examboard
--   Othello    mbbsd/othello.c: eatline, if_can_put, eat
--   Strings    mbbsd/stuff.c: subject, str_lower, trim, chomp, invalid_pname
--   Edit       mbbsd/edit.c: the lines of the editor. A Line has the bytes of the buffer of a textline_t
--              and its len; a Buf has the current line, those before and after it, and the fields of
--              editor_internal_t. Edit: split, insert_char, delete_char; Edit.Keys: join and the deleting
--              keys of vedit; Edit.Ansi: ansi2n, n2ansi; Edit.Links: insert_line and delete_line on the
--              pointers. Edit.Doc has the abstract article: lines of text with a cursor; Edit.Session has
--              the sequences of keys
--   Examples   the theorems at concrete inputs
--
-- Functions keep their names, in lower case where they are in mixed case. A function that changes
-- globals takes them and returns the new ones. An index -1 or a null pointer is `none`; a call that does
-- not return (abort_bbs) is `none` as well. Numbers are natural numbers, or integers without bounds in
-- Card, Chicken and the counters of Lock; the account of a user in Money is an int that wraps at 32 bits,
-- and the lock of a session keeps 8 bits. Elsewhere, where C computes with an int that may be negative, the
-- difference is written as a comparison of sums. The hash function wraps at 32 bits as Fnv32_t does.
--
-- Loops have a count of rounds. The loops of the hash table have the bound MAX_USERS of the source,
-- a parameter here; the binary searches have as many rounds as there are entries, which is enough as
-- the range shrinks in each round; delete_records has one round more than the file has bytes, which is
-- enough as each round that goes on reads a byte at least. join has two rounds, as its recursive call
-- joins at once; the loops around it have one round for each line. brc_findrecord_in has as many
-- rounds as the buffer has words, as each round passes a word at least. The recursion of GO_count has
-- one level for each point of the board, as each level takes a mark away; the loops of Othello have
-- as many as the board is wide with its edge, up to 12; that of rebuild_fav has fuel
-- for the depth of the folders, which a rank of the folders bounds.
--
-- The C library is modelled where its result is fixed by its documentation: strcasecmp and toupper on
-- ASCII, strcpy, strcat, memset, memcpy and memmove on lists of bytes or words, and lseek, read, write
-- and ftruncate on a list of bytes. atoi is a parameter. So is geting_old of mbbsd/chicken.c, which
-- computes with floats. The numbers of random() are arguments. A buffer of the editor ends where its
-- structure ends, and what malloc leaves undefined is 0.
--
-- Not modelled: input and output on the terminal and on sockets, signals, locks of files, other
-- processes that write the shared memory at the same time, the dialogs of the games, the
-- reading and posting of articles, the drawing of the editor, its blocks and
-- files, mail, the news gateway of innbbsd/ and the tools of util/.
pub mod Base
pub mod Brc
pub mod Chc
pub mod Uhash
pub mod Utmp
pub mod Record
pub mod Guess
pub mod Card
pub mod Chicken
pub mod Calendar
pub mod NameList
pub mod Money
pub mod Intbsearch
pub mod Lock
pub mod Edit
pub mod Go
pub mod Othello
pub mod Strings
pub mod Fav
pub mod Examples
