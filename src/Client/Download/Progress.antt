-- ===== src/Client/Download/Progress.antt =====
-- What a download, run and run again, leaves on the disk.
