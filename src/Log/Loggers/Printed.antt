-- ===== src/Log/Loggers/Printed.antt =====
-- What a message leaves in the file of a `FileLogAppender`.
